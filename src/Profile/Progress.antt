-- ===== src/Profile/Progress.antt =====
-- What the reading functions of the profile parser leave of a text that ends with a newline: a
-- part of it that does so too, and is no longer (hw2/Scheduler_VM/cpuinit.c).
use uth_operating_systems.Base.{
  ℕ, zero, suc, ◌+◌, ◌*◌, ◌-◌, ◌≤◌, ◌<◌, ◌≡◌, inl, inr, refl, ap, ◌∙◌, Bool, true, false, List, [],
  ◌∷◌, arith, Option, none, some, ok, ◌==◌, leb, Bool-cases, length, ℤ,
}
use uth_operating_systems.Profile.{
  Stream, isspace, is_digit, forward, back, seek_back, first_from, skip_spaces, scan_digits,
  scan_number, scan_sign, readint, word_length, readstring,
}
use uth_operating_systems.Profile.Parse.{
  Reading, too_long, cut_off, word, longer, read_option, skip_comment,
}

-- The text is empty or ends with a newline.
abbrev pub ends_line : List ℕ → Bool
ends_line [] = true
ends_line (c ∷ []) = c == 10
ends_line (c ∷ d ∷ r) = ends_line (d ∷ r)

pub ends_line-tail : (c : ℕ) (r : List ℕ) → ends_line (c ∷ r) ≡ true → ends_line r ≡ true
ends_line-tail c [] h = refl
ends_line-tail c (d ∷ r) h = h

-- A closed rest of at most `n` bytes.
pub record Within (n : ℕ) (r : List ℕ) : Type 0 where
  pub closed : ends_line r ≡ true
  pub short : length r ≤ n

pub Within-suc : {n : ℕ} {r : List ℕ} → Within n r → Within (suc n) r
Within-suc w = record { closed = w.closed; short = omega (arith, w.short) }

-- The white space before a byte is eaten, and the byte can be put back.
pub data FirstByte (n : ℕ) : Option (ℕ × List ℕ × List ℕ) → Type 0 where
  nothing : FirstByte n none
  byte :
      {c : ℕ} {b r : List ℕ}
      → isspace c ≡ false
      → Within n (c ∷ r)
      → FirstByte n (some (c, c ∷ b, r))

FirstByte-suc : {n : ℕ} {o : Option (ℕ × List ℕ × List ℕ)} → FirstByte n o → FirstByte (suc n) o
FirstByte-suc nothing = nothing
FirstByte-suc (byte h w) = byte h (Within-suc w)

pub first_from-FirstByte :
    (b r : List ℕ) → ends_line r ≡ true → FirstByte (length r) (first_from b r)
unfolding first_from
first_from-FirstByte b [] h = nothing
first_from-FirstByte b (c ∷ r) h = elim (Bool-cases (isspace c)) [
  | inl e ↦ rw e (FirstByte-suc (first_from-FirstByte (c ∷ b) r (ends_line-tail c r h)))
  | inr e ↦ rw e (byte e (record { closed = h; short = omega arith }))
]

-- A comment in a closed text ends.
pub skip_comment-Within :
    (fuel copt : ℕ) (b r : List ℕ)
    → ends_line (copt ∷ r) ≡ true
    → length r < fuel
    → (m : List ℕ × List ℕ) × (skip_comment fuel copt b r ≡ ok m) × Within (length r) m.1
unfolding skip_comment
skip_comment-Within zero copt b r c h = elim h [ ]
skip_comment-Within (suc fuel) copt b [] c h =
    ((b, []), rw c refl, record { closed = refl; short = omega arith })
skip_comment-Within (suc fuel) copt b (d ∷ r) c h = elim (Bool-cases (copt == 10)) [
  | inl e ↦ ((b, d ∷ r), rw e refl, record { closed = c; short = omega arith })
  | inr e ↦
      let (m, done, w) = skip_comment-Within fuel d (d ∷ b) r c (omega arith) in
      (m, rw (e, done) refl, Within-suc w)
]

-- What is left behind a word.
abbrev pub Left : ℕ → Reading → Type 0
Left n too_long = Unit {0}
Left n cut_off = Unit {0}
Left n (word w b r) = Within n r

Left-longer : (n c : ℕ) (o : Reading) → Left n o → Left (suc n) (longer c o)
Left-longer n c too_long h = tt
Left-longer n c cut_off h = tt
Left-longer n c (word w b r) h = Within-suc h

pub read_option-Left :
    (i : ℕ) (b r : List ℕ) → ends_line r ≡ true → Left (length r) (read_option i b r)
unfolding read_option
read_option-Left i b [] h = elim (Bool-cases (leb 48 i)) [ inl e ↦ rw e tt | inr e ↦ rw e tt ]
read_option-Left i b (c ∷ r) h =
    let further = read_option-Left (i + 1) (c ∷ b) r (ends_line-tail c r h) in
    elim (Bool-cases (leb 48 i)) [
      | inl e ↦ rw e tt
      | inr e ↦ elim (Bool-cases (isspace c)) [
        | inl z ↦ rw (e, z) (record { closed = ends_line-tail c r h; short = omega arith })
        | inr z ↦ rw (e, z) (Left-longer (length r) c (read_option (i + 1) (c ∷ b) r) further)
      ]
    ]

-- The functions that read a number.
skip_spaces-Within : (b r : List ℕ) → ends_line r ≡ true → Within (length r) (skip_spaces b r).1
unfolding skip_spaces
skip_spaces-Within b [] h = record { closed = refl; short = omega arith }
skip_spaces-Within b (c ∷ r) h = elim (Bool-cases (isspace c)) [
  | inl e ↦ rw e (Within-suc (skip_spaces-Within (c ∷ b) r (ends_line-tail c r h)))
  | inr e ↦ rw e (record { closed = h; short = omega arith })
]

scan_digits-Within :
    (n : ℕ) (b r : List ℕ) → ends_line r ≡ true → Within (length r) (scan_digits n b r).2
unfolding scan_digits
scan_digits-Within n b [] h = record { closed = refl; short = omega arith }
scan_digits-Within n b (c ∷ r) h = elim (Bool-cases (is_digit c)) [
  | inl e ↦
      rw e (Within-suc (scan_digits-Within (10 * n + (c - b'0')) (c ∷ b) r (ends_line-tail c r h)))
  | inr e ↦ rw e (record { closed = h; short = omega arith })
]

scan_number-Within :
    (garbage : ℤ) (negative : Bool) (b r : List ℕ)
    → ends_line r ≡ true
    → Within (length r) (scan_number garbage negative b r).1.rest
unfolding scan_number
scan_number-Within garbage negative b [] h = record { closed = refl; short = omega arith }
scan_number-Within garbage negative b (c ∷ r) h = elim (Bool-cases (is_digit c)) [
  | inl e ↦ rw e (scan_digits-Within 0 b (c ∷ r) h)
  | inr e ↦ rw e (record { closed = h; short = omega arith })
]

scan_sign-Within :
    (garbage : ℤ) (b r : List ℕ)
    → ends_line r ≡ true
    → Within (length r) (scan_sign garbage b r).1.rest
unfolding scan_sign
scan_sign-Within garbage b [] h = scan_number-Within garbage false b [] h
scan_sign-Within garbage b (c ∷ r) h =
    let minus = scan_number-Within garbage true (c ∷ b) r (ends_line-tail c r h) in
    let plus = scan_number-Within garbage false (c ∷ b) r (ends_line-tail c r h) in
    elim (Bool-cases (c == b'-')) [
      | inl e ↦ rw e (Within-suc minus)
      | inr e ↦ elim (Bool-cases (c == b'+')) [
        | inl z ↦ rw (e, z) (Within-suc plus)
        | inr z ↦ rw (e, z) (scan_number-Within garbage false b (c ∷ r) h)
      ]
    ]

pub Within-trans : {m n : ℕ} {r : List ℕ} → Within m r → m ≤ n → Within n r
Within-trans w h = record { closed = w.closed; short = omega (arith, w.short) }

pub readint-Within :
    (garbage : ℤ) (s : Stream)
    → ends_line s.rest ≡ true
    → Within (length s.rest) (readint garbage s).1.rest
unfolding readint
readint-Within garbage s h =
    let skipped = skip_spaces s.before s.rest in
    let w = skip_spaces-Within s.before s.rest h in
    Within-trans (scan_sign-Within garbage skipped.0 skipped.1 w.closed) w.short

-- Reading on, and going back.
forward-Within :
    (n : ℕ) (b r : List ℕ) (e : Bool)
    → ends_line r ≡ true
    → Within (length r) (forward n (record { before = b; rest = r; eof = e })).rest
unfolding forward
forward-Within zero b r e h = record { closed = h; short = omega arith }
forward-Within (suc n) b [] e h = record { closed = refl; short = omega arith }
forward-Within (suc n) b (c ∷ r) e h =
    Within-suc (forward-Within n (c ∷ b) r e (ends_line-tail c r h))

back-forward :
    (n : ℕ) (b r : List ℕ) (e : Bool)
    → n ≤ length r
    → let s = forward n (record { before = b; rest = r; eof = e }) in
      (k : ℕ) → back (n + k) s.before s.rest ≡ back k b r
unfolding forward
back-forward zero b r e h k = ap (λ (j : ℕ). back j b r) (omega arith)
back-forward (suc n) b [] e h k = absurd (omega arith)
back-forward (suc n) b (c ∷ r) e h k =
    let s = forward n (record { before = c ∷ b; rest = r; eof = e }) in
    ap (λ (j : ℕ). back j s.before s.rest) (omega arith)
    ∙ back-forward n (c ∷ b) r e (omega arith) (suc k)

seek_back-forward :
    (n : ℕ) (b r : List ℕ) (e : Bool)
    → n ≤ length r
    → seek_back n (forward n (record { before = b; rest = r; eof = e }))
      ≡ record { before = b; rest = r; eof = false }
unfolding seek_back
seek_back-forward n b r e h =
    let s = forward n (record { before = b; rest = r; eof = e }) in
    let found : back n s.before s.rest ≡ some (b, r) =
      ap (λ (j : ℕ). back j s.before s.rest) (omega arith) ∙ back-forward n b r e h 0 in
    rw (found, seek_back) refl

-- A closed text that is not empty has a white space behind its first word.
word_length-lt :
    (c : ℕ) (r : List ℕ) → ends_line (c ∷ r) ≡ true → word_length (c ∷ r) < length (c ∷ r)
unfolding word_length
word_length-lt c [] h = ground arith
word_length-lt c (d ∷ r) h = ground (arith, word_length-lt d r h)

word_length-nil : word_length [] ≡ 0
unfolding word_length
word_length-nil = refl

pub readstring-Within :
    (b r : List ℕ) (e : Bool)
    → ends_line r ≡ true
    → Within (length r) (readstring (record { before = b; rest = r; eof = e })).1.rest
unfolding readstring
readstring-Within b [] e h = rw word_length-nil (forward-Within (0 + 1) b [] e h)
readstring-Within b (c ∷ r) e h =
    let i = word_length (c ∷ r) in
    let lt = word_length-lt c r h in
    elim (Bool-cases (i == 0)) [
      | inl z ↦ rw z (forward-Within (i + 1) b (c ∷ r) e h)
      | inr z ↦
          rw (z, seek_back-forward (i + 1) b (c ∷ r) e (omega (arith, lt)))
            (forward-Within i b (c ∷ r) false h)
    ]
