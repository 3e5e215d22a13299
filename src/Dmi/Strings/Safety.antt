-- ===== src/Dmi/Strings/Safety.antt =====
-- The string functions of dmidecode.c stay within the string area of a structure.
use cpu_x.Shared.{ℕ, zero, suc, ◌+◌, ◌-◌, ◌≤◌, ◌<◌}
use cpu_x.Shared.{some, List, [], ◌∷◌, get_elem?, length, drop, set, arith}
use cpu_x.Shared.{◌≡◌, refl, ap, ◌∙◌, ◌⊎◌, inl, inr, sym}
use cpu_x.Shared.{
  get_elem?-drop, length-set, get_elem?-set_ne, get_elem?-some, lt-of_get_elem?, suc-==-zero,
}
use cpu_x.Shared.{All, All-set, All-get_elem?, subst, Option-cases}
use mathlib.Core.Option.{some-injective}
use cpu_x.Dmi.Memory.{IsByte, Buffer, byte}
use cpu_x.Dmi.Strings.{Header, c_str, str_at, clean, ascii_filter, skip_strings, dmi_string}
use cpu_x.Dmi.Strings.{Text, not_specified, bad_index}

-- A zero at index `k` ends the C string there or before.
c_str-some :
    (xs : List ℕ) (k : ℕ)
    → get_elem? xs k ≡ some 0
    → (t : List ℕ) × (c_str xs ≡ some t) × (length t ≤ k) × (get_elem? xs (length t) ≡ some 0)
unfolding c_str
c_str-some [] k h = cc
c_str-some (zero ∷ xs) k h = ([], refl, omega arith, refl)
c_str-some (suc c ∷ xs) zero h = cc
c_str-some (suc c ∷ xs) (suc k) h =
    let (t, e, le, z) = c_str-some xs k h in (suc c ∷ t, rw e (ground arith), omega arith, z)

pub str_at-some :
    (buf : Buffer) (p e : ℕ)
    → p ≤ e
    → byte buf e ≡ some 0
    → (t : List ℕ) × (str_at buf p ≡ some t)
      × (p + length t ≤ e)
      × (byte buf (p + length t) ≡ some 0)
str_at-some buf p e le h =
    let (t, r, bound, z) = c_str-some (drop p buf) (e - p) at_end in
    (t, r, omega arith, sym (get_elem?-drop p (length t) buf) ∙ z)
  where
    at_end : get_elem? (drop p buf) (e - p) ≡ some 0
    at_end = get_elem?-drop p (e - p) buf ∙ ap (get_elem? buf) (omega arith) ∙ h

-- Two blocks of one length that agree outside of `[lo, hi)`.
pub record SameOutside (lo hi : ℕ) (buf buf' : Buffer) : Type 0 where
  pub same_length : length buf' ≡ length buf
  pub same_bytes : (j : ℕ) → (j < lo) ⊎ (hi ≤ j) → byte buf' j ≡ byte buf j

pub SameOutside-refl : (lo hi : ℕ) (buf : Buffer) → SameOutside lo hi buf buf
SameOutside-refl lo hi buf = record { same_length = refl; same_bytes = λ j h. refl }

pub SameOutside-wider :
    {lo hi lo' hi' : ℕ} {buf buf' : Buffer}
    → lo' ≤ lo
    → hi ≤ hi'
    → SameOutside lo hi buf buf'
    → SameOutside lo' hi' buf buf'
SameOutside-wider p q s = record {
  same_length = s.same_length;
  same_bytes =
      λ j h. s.same_bytes j (elim h [ inl a ↦ inl (omega arith) | inr b ↦ inr (omega arith) ]);
}

pub ascii_filter_safe :
    (left p : ℕ) (buf : Buffer)
    → p + left ≤ length buf
    → (buf' : Buffer) × (ascii_filter left p buf ≡ some buf') × SameOutside p (p + left) buf buf'
unfolding ascii_filter
ascii_filter_safe zero p buf h = (buf, refl, SameOutside-refl p (p + zero) buf)
ascii_filter_safe (suc left) p buf h =
    let (c, read) = get_elem?-some buf p (omega arith) in
    let (buf', e, s) =
      ascii_filter_safe left (p + 1) (set buf p (clean c))
        (omega (arith, length-set buf p (clean c))) in
    (
      buf',
      rw read e,
      record {
        same_length = s.same_length ∙ length-set buf p (clean c);
        same_bytes = λ j o.
            s.same_bytes j (elim o [ inl a ↦ inl (omega arith) | inr b ↦ inr (omega arith) ])
            ∙ get_elem?-set_ne buf p j (clean c)
                (elim o [ inl a ↦ λ q. absurd (omega arith) | inr b ↦ λ q. absurd (omega arith) ]);
      },
    )

clean-IsByte : (c : ℕ) → IsByte c → IsByte (clean c)
unfolding clean
clean-IsByte c h = ground arith

ascii_filter-IsByte :
    (left p : ℕ) (buf : Buffer) {buf' : Buffer}
    → All IsByte buf
    → ascii_filter left p buf ≡ some buf'
    → All IsByte buf'
unfolding ascii_filter
ascii_filter-IsByte zero p buf h e = subst (All IsByte) (some-injective _ _ e) h
ascii_filter-IsByte (suc left) p buf h e = elim (Option-cases (byte buf p)) [
  | inl out ↦ cc
  | inr (c, r) ↦
      ascii_filter-IsByte left (p + 1) (set buf p (clean c))
        (All-set IsByte buf p (clean c) (clean-IsByte c (All-get_elem? IsByte buf p h r)) h)
        (rw r at e)
]

-- The string area of a structure that ends at `e`: it begins behind the formatted area and is
-- closed by two zero bytes.
pub record IsTerminated (buf : Buffer) (h : Header) (e : ℕ) : Type 0 where
  pub fits : h.start + h.length ≤ e
  pub last : byte buf e ≡ some 0
  pub after : byte buf (e + 1) ≡ some 0

-- In the block a position holds the end of a string or a character.
pub char_cases :
    (buf : Buffer) (i : ℕ)
    → i < length buf
    → (byte buf i ≡ some 0) ⊎ ((c : ℕ) × (byte buf i ≡ some (suc c)))
char_cases [] i h = absurd (omega arith)
char_cases (zero ∷ xs) zero h = inl refl
char_cases (suc c ∷ xs) zero h = inr (c, refl)
char_cases (x ∷ xs) (suc i) h = char_cases xs i (omega arith)

-- A position up to the second zero that holds a character lies before the first.
pub before_end :
    (buf : Buffer) (e p c : ℕ)
    → byte buf e ≡ some 0
    → byte buf (e + 1) ≡ some 0
    → p ≤ e + 1
    → byte buf p ≡ some (suc c)
    → p < e
before_end buf e p c z z' h r = ground arith

pub skip_strings_safe :
    (buf : Buffer) (e : ℕ) (s bp : ℕ)
    → byte buf e ≡ some 0
    → byte buf (e + 1) ≡ some 0
    → bp ≤ e + 1
    → (q : ℕ) × (skip_strings buf s bp ≡ some q) × (bp ≤ q) × (q ≤ e + 1)
unfolding skip_strings
skip_strings_safe buf e zero bp z z' h = (bp, refl, omega arith, h)
skip_strings_safe buf e (suc zero) bp z z' h = (bp, refl, omega arith, h)
skip_strings_safe buf e (suc (suc s)) bp z z' h =
    elim (char_cases buf bp (omega (arith, lt-of_get_elem? buf (e + 1) z'))) [
      | inl r ↦ (bp, rw r, omega arith, h)
      | inr (c, r) ↦
          let (t, rt, le, _) =
            str_at-some buf bp e (omega (arith, before_end buf e bp c z z' h r)) z in
          let (q, rq, lo, hi) =
            skip_strings_safe buf e (suc s) (bp + length t + 1) z z' (omega arith) in
          (q, rw (r, rt) (ground (arith, rq)), omega arith, hi)
    ]

-- The two ways in which `dmi_string` looks up a string other than number 0.
module _ (buf : Buffer) (h : Header) (s : ℕ) {q : ℕ}
    (skipped : skip_strings buf (suc s) (h.start + h.length) ≡ some q) where
  pub dmi_string_missing :
      byte buf q ≡ some 0
      → dmi_string buf h (suc s) ≡ some (record { text = bad_index; block = buf })
  unfolding dmi_string
  dmi_string_missing r = rw (suc-==-zero, skipped, r)

  pub dmi_string_present :
      {c : ℕ} {t t' : List ℕ} {buf' : Buffer}
      → byte buf q ≡ some (suc c)
      → str_at buf q ≡ some t
      → ascii_filter (length t) q buf ≡ some buf'
      → str_at buf' q ≡ some t'
      → dmi_string buf h (suc s) ≡ some (record { text = t'; block = buf' })
  unfolding dmi_string
  dmi_string_present {c} r read filtered read' =
      rw (suc-==-zero, skipped, r, suc-==-zero, read, filtered, read')

-- What `dmi_string` leaves behind: the block is the same outside of the string area.
pub record StaysInside (buf : Buffer) (h : Header) (e s : ℕ) : Type 0 where
  pub result : Text
  pub returns : dmi_string buf h s ≡ some result
  pub same : SameOutside (h.start + h.length) e buf result.block
  pub bytes : All IsByte buf → All IsByte result.block

-- On a structure with a terminated string area, `dmi_string` succeeds for every string number,
-- so it reads nothing outside the block, and it changes no byte outside the string area: the
-- closing zeros, the formatted area and the rest of the table stay as they are.
pub dmi_string_safe :
    (buf : Buffer) (h : Header) (e s : ℕ) → IsTerminated buf h e → StaysInside buf h e s
unfolding dmi_string
dmi_string_safe buf h e zero w = record {
  result = record { text = not_specified; block = buf };
  returns = refl;
  same = SameOutside-refl _ e buf;
  bytes = λ b. b;
}
dmi_string_safe buf h e (suc s) w =
    let (q, skipped, lo, hi) =
      skip_strings_safe buf e (suc s) (h.start + h.length) w.last w.after (omega (arith, w.fits)) in
    elim (char_cases buf q (omega (arith, lt-of_get_elem? buf (e + 1) w.after))) [
      | inl r ↦ record {
        result = record { text = bad_index; block = buf };
        returns = dmi_string_missing buf h s skipped r;
        same = SameOutside-refl _ e buf;
        bytes = λ b. b;
      }
      | inr (c, r) ↦
          let inside : q < e = before_end buf e q c w.last w.after hi r in
          let (t, read, le, _) = str_at-some buf q e (omega arith) w.last in
          let (buf', filtered, same) =
            ascii_filter_safe (length t) q buf (omega (arith, lt-of_get_elem? buf e w.last)) in
          let (t', read', _, _) =
            str_at-some buf' q e (omega arith) (same.same_bytes e (inr le) ∙ w.last) in
          record {
            result = record { text = t'; block = buf' };
            returns = dmi_string_present buf h s skipped r read filtered read';
            same = SameOutside-wider lo le same;
            bytes = λ b. ascii_filter-IsByte (length t) q buf b filtered;
          }
    ]
