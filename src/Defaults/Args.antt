-- ===== src/Defaults/Args.antt =====
-- `std::map<Defaults::Arg, std::string>`, the arguments that every request carries.
use tkmcollector.Prelude.{
  String, Bool, true, false, Option, none, some, List, [], ◌∷◌, if◌then◌else◌, str_eq,
}
use tkmcollector.Outcome.{Outcome, ok, throws, out_of_range}
use tkmcollector.Defaults.{Arg, Val, arg_eq, val_for}

abbrev pub Args : Type 0
Args = List (Arg × String)

abbrev pub find : Arg → Args → Option String
find k [] = none
find k ((j, v) ∷ m) = if arg_eq j k then some v else find k m

-- `count(k)`, which is 0 or 1, as a condition.
abbrev pub count : Arg → Args → Bool
count k m = elim (find k m) [ none ↦ false | some _ ↦ true ]

-- `at(k)`
abbrev pub at : Arg → Args → Outcome String
at k m = elim (find k m) [ none ↦ throws out_of_range | some v ↦ ok v ]

-- `emplace(k, v)` leaves the map as it is where it has the key.
abbrev pub emplace : Arg → String → Args → Args
emplace k v m = elim (find k m) [ none ↦ (k, v) ∷ m | some _ ↦ m ]

-- `if (from.count(k)) to.emplace(k, from.at(k))`
abbrev pub copy_arg : Arg → Args → Args → Args
copy_arg k from to = elim (find k from) [ none ↦ to | some v ↦ emplace k v to ]

-- The argument Forced with the value True.
abbrev pub is_forced : Args → Bool
is_forced args = elim (find Arg.forced args) [ none ↦ false | some v ↦ str_eq v (val_for Val.true) ]
