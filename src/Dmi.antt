-- ===== src/Dmi.antt =====
-- The DMI decoder (src/core/dmidecode).
pub mod Memory
pub mod Strings
pub mod Vendor
pub mod CpuidType
pub mod Loop
pub mod Table
pub mod Decode
pub mod MemorySize
pub mod Print
pub mod MemoryDevice
pub mod Cpux
pub mod EntryPoint
pub mod Lookup
pub mod Names
pub mod ProcessorFamily
pub mod Numbers
pub mod TypeOption
pub mod CommandLine
