-- ===== src/Dmi/Names.antt =====
-- The tables of names in core/dmidecode/dmidecode.c: each function turns a code of the SMBIOS
-- standard into a name. One child module for each group of structures.
pub mod Board
pub mod Processor
pub mod Cache
pub mod Port
pub mod Slot
pub mod Event
pub mod Memory
pub mod Input
pub mod Probe
pub mod Management
use cpu_x.Shared.{List, ◌++◌, All, All-append}
use cpu_x.Dmi.Lookup.{Decoder, IsTotal}
use Board
use Processor
use Cache
use Port
use Slot
use Event
use Memory
use Input
use Probe
use Management

-- The tables of the structures for the board, the processor, the caches, the ports and the slots.
abbrev first_decoders : List Decoder
first_decoders =
    Board.decoders ++ (Processor.decoders ++ (Cache.decoders ++ (Port.decoders ++ (Slot.decoders))))

first_decoders-IsTotal : All IsTotal first_decoders
first_decoders-IsTotal =
    All-append IsTotal Board.decoders
      (Processor.decoders ++ (Cache.decoders ++ (Port.decoders ++ (Slot.decoders))))
      Board.decoders-IsTotal
      (All-append IsTotal Processor.decoders (Cache.decoders ++ (Port.decoders ++ (Slot.decoders)))
        Processor.decoders-IsTotal
        (All-append IsTotal Cache.decoders (Port.decoders ++ (Slot.decoders)) Cache.decoders-IsTotal
          (All-append IsTotal Port.decoders (Slot.decoders) Port.decoders-IsTotal
            (Slot.decoders-IsTotal))))

-- The tables of the structures for the log, the memory, the inputs, the probes and the management.
abbrev second_decoders : List Decoder
second_decoders =
    Event.decoders
    ++ (Memory.decoders ++ (Input.decoders ++ (Probe.decoders ++ (Management.decoders))))

second_decoders-IsTotal : All IsTotal second_decoders
second_decoders-IsTotal =
    All-append IsTotal Event.decoders
      (Memory.decoders ++ (Input.decoders ++ (Probe.decoders ++ (Management.decoders))))
      Event.decoders-IsTotal
      (All-append IsTotal Memory.decoders
        (Input.decoders ++ (Probe.decoders ++ (Management.decoders))) Memory.decoders-IsTotal
        (All-append IsTotal Input.decoders (Probe.decoders ++ (Management.decoders))
          Input.decoders-IsTotal
          (All-append IsTotal Probe.decoders (Management.decoders) Probe.decoders-IsTotal
            (Management.decoders-IsTotal))))

abbrev pub name_decoders : List Decoder
name_decoders = first_decoders ++ second_decoders

-- Each of the functions in the list answers every code: none of them reads its array of names
-- outside the bounds.
pub name_decoders-IsTotal : All IsTotal name_decoders
name_decoders-IsTotal =
    All-append IsTotal first_decoders second_decoders first_decoders-IsTotal second_decoders-IsTotal
