-- ===== src/Arguments.antt =====
-- What the functions `parse_args` of the programs share: utils.c of each program and client.c of
-- final-project. The options are those that `getopt` returns, in order, with their arguments; one that
-- it does not know is `?` there. `open` of the system is a parameter: the descriptor, if there is one.
pub mod Meals
pub mod Serving
pub mod Asking
pub mod Files
mod Examples
use cse344_assignments.Base.{
  ℕ, ◌≡◌, Bool, true, false, refl, ◌≤◌, subst, ok-injective, arith, not, Option, none, some, List,
  [], ◌∷◌, guard, if◌then◌else◌, exited, Result, ok, err, ◌>>=◌, >>=-eq-ok, >>-eq-ok, int_overflow,
}
use cse344_assignments.Libc.{ℤ, pos, negsuc, lt_int, in_int, as_int, str2int}

-- The flags of `open` that the programs use.
pub data OpenMode : Type 0 where
  rdonly : OpenMode
  rdwr : OpenMode
  creat_rdwr : OpenMode
  creat_wronly_excl : OpenMode

abbrev pub Open : Type 0
Open = List ℕ → OpenMode → Option ℕ

-- `xopen`.
abbrev pub xopen : Option ℕ → Result ℕ
xopen none = err exited
xopen (some fd) = ok fd

-- `check_arg`.
abbrev pub check_arg : Bool → Result (Unit {0})
check_arg flag = guard flag exited

-- `check_range`; no `int` is larger than INT_MAX.
abbrev pub check_range : ℤ → ℤ → Result (Unit {0})
check_range num min = guard (not (lt_int num min)) exited

-- An option's number, which `str2int` reads.
abbrev pub number_of : Result (ℤ × List ℕ) → Result ℤ
number_of (err why) = err why
number_of (ok (num, rest)) = ok num

unfoldable pub number_arg : List ℕ → Result ℤ
unfolding str2int
number_arg optarg = number_of (str2int optarg)

module _ {ℓ} {S : Type ℓ} where
  -- while ((opt = getopt(argc, argv, ...)) != -1) option
  unfoldable pub getopts : (ℕ → List ℕ → S → Result S) → List (ℕ × List ℕ) → S → Result S
  getopts option [] s = ok s
  getopts option ((opt, optarg) ∷ opts) s = option opt optarg s >>= getopts option opts

module _ {ℓ} {S : Type ℓ} where
  -- What each option keeps holds after the options.
  pub getopts_invariant :
      (option : ℕ → List ℕ → S → Result S) (Inv : S → Type 0)
      → ((opt : ℕ) (optarg : List ℕ) (s t : S) → Inv s → option opt optarg s ≡ ok t → Inv t)
      → (opts : List (ℕ × List ℕ)) (s t : S) → Inv s
      → getopts option opts s ≡ ok t
      → Inv t
  unfolding getopts
  getopts_invariant option Inv keeps [] s t v e = subst Inv (ok-injective e) v
  getopts_invariant option Inv keeps ((opt, optarg) ∷ opts) s t v e =
      let (u, now, later) = >>=-eq-ok (option opt optarg s) (getopts option opts) e in
      getopts_invariant option Inv keeps opts u t (keeps opt optarg s u v now) later

-- A number that is at least `k`.
abbrev pub AtLeast : ℕ → ℤ → Type 0
AtLeast k (pos n) = k ≤ n
AtLeast k (negsuc n) = ⊥

-- The value of a number that is not negative.
abbrev pub value : ℤ → ℕ
value (pos n) = n
value (negsuc n) = 0

pub check_range-AtLeast : (num : ℤ) (min : ℕ) → check_range num (pos min) ≡ ok tt → AtLeast min num
check_range-AtLeast (pos n) min e = ground arith
check_range-AtLeast (negsuc n) min e = cc

pub check_arg-given : (flag : Bool) → check_arg flag ≡ ok tt → flag ≡ true
check_arg-given true e = refl
check_arg-given false e = cc

pub as_int-eq-ok : (z w : ℤ) → as_int z ≡ ok w → z ≡ w
as_int-eq-ok z w e =
    let (fits, same) = >>-eq-ok (guard (in_int z) int_overflow) (ok z) e in ok-injective same

module _ {ℓ} {A : Type ℓ} {P : Type 0} where
  -- What both branches of a test imply.
  pub if-eq-ok :
      (b : Bool) {this other : Result A} {q : A}
      → (this ≡ ok q → P)
      → (other ≡ ok q → P)
      → (if b then this else other) ≡ ok q
      → P
  if-eq-ok true f g e = f e
  if-eq-ok false f g e = g e

-- What an option that reads a value implies, whatever the value.
pub read-eq-ok {ℓ} :
    {A : Type 0} {B : Type ℓ} {P : Type 0} (read : Result A) (this : A → Result B) {q : B}
    → ((a : A) → this a ≡ ok q → P)
    → (read >>= this) ≡ ok q
    → P
read-eq-ok read this f e = let (a, now, same) = >>=-eq-ok read this e in f a same
