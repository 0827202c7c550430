-- ===== src/Profile.antt =====
-- The parser of the CPU profiles, hw2/Scheduler_VM/cpuinit.c. A file is a list of bytes with a
-- position; the functions of stdio.h that the parser calls are written out here.
pub mod Commands
pub mod Parse
pub mod Progress
pub mod Nice
pub mod Ends
pub mod Edges
pub mod Keeps
use Prim.Native.Char.{code}
use Prim.Native.String.{String}
use uth_operating_systems.Base.{
  ℕ, zero, suc, ◌+◌, ◌*◌, ◌-◌, Bool, true, false, List, [], ◌∷◌, ◌&&◌, ◌||◌, not, Option, none,
  some, ◌==◌, leb, if◌then◌else◌, ℤ, pos, negsuc,
}

-- The bytes of a text.
abbrev pub codes : String → List ℕ
codes String.[] = []
codes (String.◌∷◌ c s) = code c ∷ codes s

-- A `FILE`: the bytes behind the position, the last one first, those ahead, and the flag that
-- `feof` returns.
pub record Stream : Type 0 where
  pub before : List ℕ
  pub rest : List ℕ
  pub eof : Bool

-- `isspace` in the C locale, and the digits.
abbrev pub isspace : ℕ → Bool
isspace c = c == 32 || leb 9 c && leb c 13

abbrev pub is_digit : ℕ → Bool
is_digit c = leb b'0' c && leb c b'9'

-- Reading `n` bytes one by one; a read at the end sets the flag.
unfoldable pub forward : ℕ → Stream → Stream
forward zero s = s
forward (suc n) s = elim s.rest [
  | [] ↦ record s { eof = true }
  | c ∷ r ↦ forward n (record s { before = c ∷ s.before; rest = r })
]

-- `fseek(fp, -n, SEEK_CUR)`, which clears the flag; before the first byte it fails.
abbrev pub back : ℕ → List ℕ → List ℕ → Option (List ℕ × List ℕ)
back zero b r = some (b, r)
back (suc n) [] r = none
back (suc n) (c ∷ b) r = back n b (c ∷ r)

unfoldable pub seek_back : ℕ → Stream → Stream
seek_back n s = elim (back n s.before s.rest) [
  | some (b, r) ↦ record { before = b; rest = r; eof = false }
  | none ↦ s
]

-- The loop that eats white space: the next other byte, and the bytes on its two sides.
unfoldable pub first_from : List ℕ → List ℕ → Option (ℕ × List ℕ × List ℕ)
first_from b [] = none
first_from b (c ∷ r) =
    let further = first_from (c ∷ b) r in if isspace c then further else some (c, c ∷ b, r)

-- `fscanf(fp, "%d", &val)`: white space, a sign, digits. A value that is not set is `garbage`.
unfoldable pub skip_spaces : List ℕ → List ℕ → List ℕ × List ℕ
skip_spaces b [] = (b, [])
skip_spaces b (c ∷ r) =
    let further = skip_spaces (c ∷ b) r in if isspace c then further else (b, c ∷ r)

unfoldable pub scan_digits : ℕ → List ℕ → List ℕ → ℕ × List ℕ × List ℕ
scan_digits n b [] = (n, b, [])
scan_digits n b (c ∷ r) =
    let further = scan_digits (10 * n + (c - b'0')) (c ∷ b) r in
    if is_digit c then further else (n, b, c ∷ r)

abbrev pub signed : Bool → ℕ → ℤ
signed false n = pos n
signed true zero = pos 0
signed true (suc n) = negsuc n

abbrev is_nil : List ℕ → Bool
is_nil [] = true
is_nil (c ∷ r) = false

-- The digits behind the sign.
unfoldable pub scan_number : (garbage : ℤ) → (negative : Bool) → List ℕ → List ℕ → ℤ × Stream
scan_number garbage negative b [] = (garbage, record { before = b; rest = []; eof = true })
scan_number garbage negative b (c ∷ r) =
    let (n, b', r') = scan_digits 0 b (c ∷ r) in
    if is_digit c
    then (signed negative n, record { before = b'; rest = r'; eof = is_nil r' })
    else (garbage, record { before = b; rest = c ∷ r; eof = false })

unfoldable pub scan_sign : (garbage : ℤ) → List ℕ → List ℕ → ℤ × Stream
unfolding scan_number
scan_sign garbage b [] = scan_number garbage false b []
scan_sign garbage b (c ∷ r) =
    if c == b'-'
    then scan_number garbage true (c ∷ b) r
    else if c == b'+'
    then scan_number garbage false (c ∷ b) r
    else scan_number garbage false b (c ∷ r)

unfoldable pub readint : (garbage : ℤ) → Stream → ℤ × Stream
unfolding skip_spaces scan_sign
readint garbage s = let (b, r) = skip_spaces s.before s.rest in scan_sign garbage b r

-- The count of `readstring`: the bytes before the next white space.
unfoldable pub word_length : List ℕ → ℕ
word_length [] = 0
word_length (c ∷ r) = if isspace c then 0 else suc (word_length r)

abbrev pub first : ℕ → List ℕ → List ℕ
first zero xs = []
first (suc n) [] = []
first (suc n) (x ∷ xs) = x ∷ first n xs

-- `readstring`: the first loop counts, to a white space or to the end of the file; then the code
-- goes back by one byte more than it counted, and reads as many bytes as it counted.
unfoldable pub readstring : Stream → Option (List ℕ) × Stream
readstring s =
    let i = word_length s.rest in
    let counted = forward (i + 1) s in
    let again = seek_back (i + 1) counted in
    if i == 0 then (none, counted) else (some (first i again.rest), forward i again)
