-- ===== src/Dmi/Vendor/Spaces.antt =====
-- `dmi_set_vendor` of core/dmidecode/dmioem.c knows a vendor's name with spaces behind it.
use cpu_x.Shared.{ℕ, zero, suc, ◌+◌, ◌≤◌, ◌<◌}
use cpu_x.Shared.{
  Option, some, List, [], ◌∷◌, ◌++◌, length, length-append, get_elem?, get_elem?-append_right, All,
  codes, arith,
}
use cpu_x.Shared.{◌≡◌, refl, ap, ◌∙◌}
use cpu_x.Dmi.Vendor.{DmiVendors, VendorState, vendor_names, trimmed, find_vendor, dmi_set_vendor}
use cpu_x.Dmi.Vendor.{vendor_acer, vendor_dell, vendor_hp, vendor_hpe, vendor_ibm, vendor_lenovo}

abbrev pub spaces : ℕ → List ℕ
spaces zero = []
spaces (suc k) = b' ' ∷ spaces k

length-spaces : (k : ℕ) → length (spaces k) ≡ k
length-spaces zero = refl
length-spaces (suc k) = ap suc (length-spaces k)

spaces-at : (k i : ℕ) → i < k → get_elem? (spaces k) i ≡ some b' '
spaces-at zero i h = absurd (omega arith)
spaces-at (suc k) zero h = refl
spaces-at (suc k) (suc i) h = spaces-at k i (omega arith)

-- Trimming passes over the spaces.
trimmed-spaces :
    (name : List ℕ) (k j i : ℕ)
    → j ≤ k
    → i ≡ length name + j
    → trimmed (name ++ spaces k) i ≡ trimmed (name ++ spaces k) (length name)
unfolding trimmed
trimmed-spaces name k zero i h e = ap (trimmed (name ++ spaces k)) (omega arith)
trimmed-spaces name k (suc j) zero h e = absurd (omega arith)
trimmed-spaces name k (suc j) (suc i) h e =
    let r : get_elem? (name ++ spaces k) i ≡ some b' ' =
      get_elem?-append_right name (spaces k) j i (omega arith) ∙ spaces-at k j (omega arith) in
    rw r (trimmed-spaces name k j i (omega arith) (omega arith))

trimmed_known :
    (name : List ℕ) (k : ℕ)
    → trimmed (name ++ spaces k) (length name) ≡ length name
    → trimmed (name ++ spaces k) (length (name ++ spaces k)) ≡ length name
trimmed_known name k h =
    trimmed-spaces name k k _ (omega arith)
      (length-append name (spaces k) ∙ omega (arith, length-spaces k))
    ∙ h

-- The vendor is found with any number of spaces behind its name, whatever was found before.
abbrev pub IsRecognised : List ℕ × DmiVendors → Type 0
IsRecognised (name, id) =
    (k : ℕ) (p : Option ℕ) (g : VendorState)
    → dmi_set_vendor (some (name ++ spaces k)) p g ≡ record { vendor = id; product = p }

recognised :
    (name : List ℕ) (id : DmiVendors) (k : ℕ) (p : Option ℕ) (g : VendorState)
    → trimmed (name ++ spaces k) (length name) ≡ length name
    → find_vendor vendor_names (name ++ spaces k) (length name) g.vendor ≡ id
    → dmi_set_vendor (some (name ++ spaces k)) p g ≡ record { vendor = id; product = p }
unfolding dmi_set_vendor
recognised name id k p g t f = rw (trimmed_known name k t, f) refl

-- `dmi_set_vendor` recognises each vendor of its table by its name, also with any number of
-- spaces behind it, and stores the product, whatever the globals held before.
vendor_names-IsRecognised : All IsRecognised vendor_names
unfolding trimmed find_vendor
vendor_names-IsRecognised = (
  λ k p g. recognised (codes "Acer") vendor_acer k p g refl refl,
  (
    λ k p g. recognised (codes "Dell Computer Corporation") vendor_dell k p g refl refl,
    (
      λ k p g. recognised (codes "Dell Inc.") vendor_dell k p g refl refl,
      (
        λ k p g. recognised (codes "HP") vendor_hp k p g refl refl,
        (
          λ k p g. recognised (codes "Hewlett-Packard") vendor_hp k p g refl refl,
          (
            λ k p g. recognised (codes "HPE") vendor_hpe k p g refl refl,
            (
              λ k p g. recognised (codes "Hewlett Packard Enterprise") vendor_hpe k p g refl refl,
              (
                λ k p g. recognised (codes "IBM") vendor_ibm k p g refl refl,
                (λ k p g. recognised (codes "LENOVO") vendor_lenovo k p g refl refl, tt),
              ),
            ),
          ),
        ),
      ),
    ),
  ),
)
