-- ===== src/Arguments/Examples.antt =====
-- The theorems on the arguments at the command lines of the help texts.
use cse344_assignments.Base.{ℕ, ◌≡◌, refl, Option, some, List, [], ◌∷◌, ok}
use cse344_assignments.Libc.{pos, str2int, strtol, strtol_from, strtol_digits, read_digits}
use cse344_assignments.Arguments.{OpenMode, number_arg, getopts}
use cse344_assignments.Arguments.Meals
use cse344_assignments.Arguments.Meals.Ranges.{IsArgs, parse_args-IsArgs}
use cse344_assignments.Arguments.Serving

abbrev canteen_options : List (ℕ × List ℕ)
canteen_options =
    (b'N', b'3' ∷ [])
    ∷ ((b'T', b'5' ∷ [])
        ∷ ((b'S', b'4' ∷ [])
            ∷ ((b'L', b'1' ∷ (b'3' ∷ []))
                ∷ ((b'U', b'8' ∷ []) ∷ ((b'G', b'2' ∷ []) ∷ ((b'F', b'f' ∷ []) ∷ []))))))

abbrev canteen_args : Meals.Args
canteen_args = record {
  cooks = pos 3;
  students = pos 10;
  undergraduates = pos 8;
  graduates = pos 2;
  tables = pos 5;
  counter_size = pos 4;
  rounds = pos 13;
  kitchen_size = pos 261;
  path = b'f' ∷ [];
}

canteen_args_lem : Meals.parse_args canteen_options ≡ ok canteen_args
unfolding Meals.parse_args Meals.check_args Meals.option getopts number_arg str2int strtol
    strtol_from strtol_digits read_digits
canteen_args_lem = refl

parse_args-IsArgs_example : IsArgs canteen_args
parse_args-IsArgs_example = parse_args-IsArgs canteen_options canteen_args canteen_args_lem

abbrev any_file : List ℕ → OpenMode → Option ℕ
any_file path mode = some 3

abbrev server_options : List (ℕ × List ℕ)
server_options =
    (b'i', b'g' ∷ [])
    ∷ ((b'p', b'8' ∷ (b'0' ∷ []))
        ∷ ((b'o', b'l' ∷ []) ∷ ((b's', b'4' ∷ []) ∷ ((b'x', b'9' ∷ []) ∷ []))))

abbrev server_args : Serving.Args
server_args = record { infd = 3; outfd = 3; port = pos 80; min_thread = pos 4; max_thread = pos 9 }

server_args_lem : Serving.parse_args any_file server_options ≡ ok server_args
unfolding Serving.parse_args Serving.check_args Serving.option getopts number_arg str2int strtol
    strtol_from strtol_digits read_digits
server_args_lem = refl
