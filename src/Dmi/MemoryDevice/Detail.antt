-- ===== src/Dmi/MemoryDevice/Detail.antt =====
-- The 172 bytes of `list` in `dmi_memory_device_type_detail_str` are enough.
use cpu_x.Shared.{ℕ, ◌+◌, ◌/◌, ◌%◌, ◌^◌, ◌≤◌, ◌<◌, ◌==◌, arith}
use cpu_x.Shared.{List, [], ◌∷◌, length, length-append, inl, inr, Bool-cases}
use cpu_x.Dmi.MemoryDevice.{details, spaced, detail_loop, dmi_memory_device_type_detail_str}

-- The bytes of a text with a zero or a space behind it; an empty list needs none.
abbrev cost : List ℕ → ℕ
cost [] = 0
cost (c ∷ list) = length (c ∷ list) + 1

abbrev budget : List (List ℕ) → ℕ
budget [] = 0
budget (name ∷ names) = length name + 1 + budget names

cost-spaced : (list name : List ℕ) → cost (spaced list name) ≤ cost list + (length name + 1)
cost-spaced [] [] = omega arith
cost-spaced [] (c ∷ name) = omega arith
cost-spaced (c ∷ list) name = omega (arith, length-append list (b' ' ∷ name))

cost-detail_loop :
    (names : List (List ℕ)) (i code : ℕ) (list : List ℕ)
    → cost (detail_loop names i code list) ≤ cost list + budget names
unfolding detail_loop
cost-detail_loop [] i code list = omega arith
cost-detail_loop (name ∷ names) i code list = elim (Bool-cases (code / 2 ^ i % 2 == 0)) [
  | inl clear ↦ rw clear (omega (arith, cost-detail_loop names (i + 1) code list))
  | inr on ↦
      rw on (
        omega
          (arith, cost-detail_loop names (i + 1) code (spaced list name), cost-spaced list name))
]

length-lt_of_cost : (list : List ℕ) (n : ℕ) → 0 < n → cost list ≤ n → length list < n
length-lt_of_cost [] n p h = omega arith
length-lt_of_cost (c ∷ list) n p h = omega arith

-- For every value of the field the text and the zero byte behind it fit into the 172 bytes of the
-- static buffer, so that the `sprintf` calls of the loop do not write past it.
type_detail_fits : (code : ℕ) → length (dmi_memory_device_type_detail_str code) < 172
unfolding dmi_memory_device_type_detail_str
type_detail_fits code = elim (Bool-cases (code / 2 % 2 ^ 15 == 0)) [
  | inl nothing ↦ rw nothing (omega arith)
  | inr bits ↦ rw bits (
      length-lt_of_cost (detail_loop details 1 code []) 172 (omega arith)
        (omega (arith, cost-detail_loop details 1 code [])))
]
