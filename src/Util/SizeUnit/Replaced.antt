-- ===== src/Util/SizeUnit/Replaced.antt =====
-- What `string_set_size_unit` makes of a text with tokens.
use cpu_x.Shared.{
  ℕ, zero, suc, ◌<◌, ◌≤◌, List, [], ◌∷◌, ◌++◌, length, some, codes, ◌≡◌, ◌≢◌, refl, ap, ==-of_ne,
  length-append, arith,
}
use cpu_x.Dmi.Vendor.{same_start}
use cpu_x.Util.SizeUnit.{find_unit, one_round, replace, string_set_size_unit}

-- A text that the loop can read: characters, and the tokens of units.
pub data Piece : Type 0 where
  plain : (c : ℕ) → c ≢ b'@' → Piece
  b_token kb_token mb_token gb_token tb_token pb_token eb_token : Piece
  kib_token mib_token gib_token tib_token pib_token eib_token : Piece

abbrev pub piece_source : Piece → List ℕ
piece_source (plain c h) = c ∷ []
piece_source b_token = codes "@0B@"
piece_source kb_token = codes "@KB@"
piece_source mb_token = codes "@MB@"
piece_source gb_token = codes "@GB@"
piece_source tb_token = codes "@TB@"
piece_source pb_token = codes "@PB@"
piece_source eb_token = codes "@EB@"
piece_source kib_token = codes "@KIB@"
piece_source mib_token = codes "@MIB@"
piece_source gib_token = codes "@GIB@"
piece_source tib_token = codes "@TIB@"
piece_source pib_token = codes "@PIB@"
piece_source eib_token = codes "@EIB@"

abbrev pub source : List Piece → List ℕ
source [] = []
source (p ∷ ps) = piece_source p ++ source ps

module _ (gettext : List ℕ → List ℕ) where
  abbrev pub piece_shown : Piece → List ℕ
  piece_shown (plain c h) = c ∷ []
  piece_shown b_token = gettext (codes "bytes")
  piece_shown kb_token = gettext (codes "kB")
  piece_shown mb_token = gettext (codes "MB")
  piece_shown gb_token = gettext (codes "GB")
  piece_shown tb_token = gettext (codes "TB")
  piece_shown pb_token = gettext (codes "PB")
  piece_shown eb_token = gettext (codes "EB")
  piece_shown kib_token = gettext (codes "KiB")
  piece_shown mib_token = gettext (codes "MiB")
  piece_shown gib_token = gettext (codes "GiB")
  piece_shown tib_token = gettext (codes "TiB")
  piece_shown pib_token = gettext (codes "PiB")
  piece_shown eib_token = gettext (codes "EiB")

  abbrev pub shown : List Piece → List ℕ
  shown [] = []
  shown (p ∷ ps) = piece_shown p ++ shown ps

  round-piece :
      (p : Piece) (text : List ℕ)
      → one_round gettext (piece_source p ++ text) ≡ (piece_shown p, text)
  unfolding one_round find_unit same_start
  round-piece (plain c h) text = rw (==-of_ne c b'@' h) refl
  round-piece b_token text = refl
  round-piece kb_token text = refl
  round-piece mb_token text = refl
  round-piece gb_token text = refl
  round-piece tb_token text = refl
  round-piece pb_token text = refl
  round-piece eb_token text = refl
  round-piece kib_token text = refl
  round-piece mib_token text = refl
  round-piece gib_token text = refl
  round-piece tib_token text = refl
  round-piece pib_token text = refl
  round-piece eib_token text = refl

  replace-round :
      (n : ℕ) (text piece rest : List ℕ) {s : List ℕ}
      → text ≢ []
      → one_round gettext text ≡ (piece, rest)
      → replace gettext n rest ≡ some s
      → replace gettext (suc n) text ≡ some (piece ++ s)
  unfolding replace
  replace-round n [] piece rest h e r = absurd (h refl)
  replace-round n (c ∷ text) piece rest h e r = rw (e, r) refl

  length-piece_source : (p : Piece) → 0 < length (piece_source p)
  length-piece_source p = ground arith

  piece-starts : (p : Piece) (text : List ℕ) → piece_source p ++ text ≢ []
  piece-starts p text e =
      absurd
        (omega (arith, length-piece_source p, length-append (piece_source p) text, ap length e))

  replace-source :
      (ps : List Piece) (n : ℕ)
      → length (source ps) ≤ n
      → replace gettext n (source ps) ≡ some (shown ps)
  unfolding replace
  replace-source [] zero h = refl
  replace-source [] (suc n) h = refl
  replace-source (p ∷ ps) zero h =
      absurd (omega (arith, length-piece_source p, length-append (piece_source p) (source ps)))
  replace-source (p ∷ ps) (suc n) h =
      replace-round n (piece_source p ++ source ps) (piece_shown p) (source ps)
        (piece-starts p (source ps)) (round-piece p (source ps))
        (replace-source ps n
          (omega (arith, length-piece_source p, length-append (piece_source p) (source ps))))

  -- A text of characters other than '@' and of tokens is read to its end, and each token in it is
  -- replaced by its unit, translated, wherever the tokens stand and whatever is next to them.
  pub string_set_size_unit-source :
      (ps : List Piece) → string_set_size_unit gettext (source ps) ≡ some (shown ps)
  unfolding string_set_size_unit
  string_set_size_unit-source ps = replace-source ps (length (source ps)) (omega arith)
