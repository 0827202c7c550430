-- ===== src/Profile/Edges.antt =====
-- Two ends of a profile that the parser does not expect (`readProfile` of
-- hw2/Scheduler_VM/cpuinit.c): a comment that the file cuts off, and a command on the last line.
use uth_operating_systems.Base.{
  ℕ, zero, suc, ◌+◌, ◌<◌, ◌≡◌, refl, Bool, true, false, List, [], ◌∷◌, ◌++◌, ◌&&◌, not, arith, some,
  ok, out_of_fuel, leb, length, ◌∉◌, ℤ, is_zero,
}
use uth_operating_systems.Profile.{isspace, first_from}
use uth_operating_systems.Profile.Commands.{Command, coptions, find_option, Profile}
use uth_operating_systems.Profile.Parse.{word, read_option, skip_comment, ended, turn, parse}

skip_comment-endless :
    (fuel copt : ℕ) (b r : List ℕ) → 10 ∉ (copt ∷ r) → skip_comment fuel copt b r ≡ out_of_fuel
unfolding skip_comment
skip_comment-endless zero copt b r o = refl
skip_comment-endless (suc fuel) copt b [] o = ground (arith, skip_comment-endless fuel copt b [] o)
skip_comment-endless (suc fuel) copt b (c ∷ r) o =
    ground (arith, skip_comment-endless fuel c (c ∷ b) r (ground arith))

-- No white space in a word.
abbrev pub solid : List ℕ → Bool
solid [] = true
solid (c ∷ w) = not (isspace c) && solid w

-- The bytes of `w` in front of `b`, the last one first.
abbrev behind : List ℕ → List ℕ → List ℕ
behind b [] = b
behind b (c ∷ w) = behind (c ∷ b) w

read_option-word :
    (i : ℕ) (b w : List ℕ)
    → solid w ≡ true
    → i + length w < 48
    → read_option i b (w ++ 10 ∷ []) ≡ word w (10 ∷ behind b w) []
unfolding read_option
read_option-word i b [] h l = ground arith
read_option-word i b (c ∷ w) h l =
    let rest = read_option-word (i + 1) (c ∷ b) w (ground arith) (omega (arith, l)) in
    let short : leb 48 i ≡ false = ground arith in
    let visible : isspace c ≡ false = ground arith in rw (short, visible, rest) refl

module _ (garbage : ℤ) (s : Profile) where
  -- If what is left of a profile is a comment without a newline behind it, the parser does not
  -- return with any fuel.
  pub parse-endless :
      (fuel : ℕ) (b r : List ℕ)
      → s.file ≡ record { before = b; rest = b';' ∷ r; eof = false }
      → 10 ∉ r
      → parse garbage fuel s ≡ out_of_fuel
  unfolding parse turn first_from
  parse-endless zero b r e o = refl
  parse-endless (suc fuel) b r e o =
      rw e (rw (skip_comment-endless fuel b';' (b';' ∷ b) r (ground arith)) refl)

  -- If what is left of a profile is an option of fewer than 48 bytes and a newline, then the parser
  -- (with fuel for two turns) returns without running the option's command, and answers whether no
  -- children are open before it.
  pub parse-last_command :
      (fuel : ℕ) (b w : List ℕ) (c : Command)
      → s.file ≡ record { before = b; rest = b'#' ∷ w ++ 10 ∷ []; eof = false }
      → solid w ≡ true
      → length w < 48
      → find_option coptions w ≡ some c
      → 1 < fuel
      → parse garbage fuel s ≡ ok (is_zero s.children, ended s)
  unfolding parse turn first_from
  parse-last_command zero b w c e h l f m = elim m [ ]
  parse-last_command (suc zero) b w c e h l f m = absurd (omega arith)
  parse-last_command (suc (suc fuel)) b w c e h l f m =
      rw e (rw (read_option-word 0 (b'#' ∷ b) w h (omega (arith, l))) (rw f refl))
