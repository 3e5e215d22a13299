-- ===== src/Dmi/Vendor.antt =====
-- `dmi_set_vendor` of core/dmidecode/dmioem.c: the vendor that decides how OEM types are read.
pub mod Spaces
use cpu_x.Shared.{ℕ, zero, suc, ◌==◌, if◌then◌else◌, Bool, true, false, ◌&&◌, codes}
use cpu_x.Shared.{Option, none, some, List, [], ◌∷◌, length, get_elem?}

pub data DmiVendors : Type 0 where
  vendor_unknown vendor_acer vendor_dell vendor_hp vendor_hpe vendor_ibm vendor_lenovo : DmiVendors

abbrev pub vendor_names : List (List ℕ × DmiVendors)
vendor_names =
    (codes "Acer", vendor_acer)
    ∷ (codes "Dell Computer Corporation", vendor_dell)
    ∷ (codes "Dell Inc.", vendor_dell)
    ∷ (codes "HP", vendor_hp)
    ∷ (codes "Hewlett-Packard", vendor_hp)
    ∷ (codes "HPE", vendor_hpe)
    ∷ (codes "Hewlett Packard Enterprise", vendor_hpe)
    ∷ (codes "IBM", vendor_ibm)
    ∷ (codes "LENOVO", vendor_lenovo)
    ∷ []

-- `strncmp(v, str, len) == 0` for texts of at least `len` characters.
unfoldable pub same_start : ℕ → List ℕ → List ℕ → Bool
same_start zero v w = true
same_start (suc n) [] [] = true
same_start (suc n) [] (y ∷ w) = false
same_start (suc n) (x ∷ v) [] = false
same_start (suc n) (x ∷ v) (y ∷ w) = let rest = same_start n v w in x == y && rest

abbrev pub is_space : Option ℕ → Bool
is_space none = false
is_space (some c) = c == b' '

-- The length of `v` without its trailing spaces, from the length `len` down.
unfoldable pub trimmed : List ℕ → ℕ → ℕ
trimmed v zero = zero
trimmed v (suc len) =
    let rest = trimmed v len in if is_space (get_elem? v len) then rest else suc len

-- The loop over the known names; the vendor stays as it was where none fits.
unfoldable pub find_vendor : List (List ℕ × DmiVendors) → List ℕ → ℕ → DmiVendors → DmiVendors
unfolding same_start
find_vendor [] v len old = old
find_vendor ((str, id) ∷ rest) v len old =
    let later = find_vendor rest v len old in
    if length str == len && same_start len v str then id else later

-- The globals `dmi_vendor` and `dmi_product`; the product is kept as a pointer into the table.
pub record VendorState : Type 0 where
  pub vendor : DmiVendors
  pub product : Option ℕ

-- `v` is the vendor's string, or `none` for NULL; `p` is the pointer to the product's.
unfoldable pub dmi_set_vendor : Option (List ℕ) → Option ℕ → VendorState → VendorState
unfolding trimmed find_vendor
dmi_set_vendor none p g = record { vendor = find_vendor vendor_names [] 0 g.vendor; product = p }
dmi_set_vendor (some v) p g = record {
  vendor = find_vendor vendor_names v (trimmed v (length v)) g.vendor;
  product = p;
}
