-- ===== src/Tests/Cache.antt =====
-- A cache for two schemas, and definitions that are asked for in turn.
use rustium.Common.{
  ℕ, ◌+◌, ◌≡◌, refl, Bool, true, false, List, [], ◌∷◌, map, ◌==◌, ==_iff, arith, if◌then◌else◌, ltb,
}
use rustium.Core.Error.{Result, ok, err, encoding}
use rustium.Cache.{new}
use rustium.Cache.Valid.{IsCache}
use rustium.Cache.Answers.{answers, answers-eq-map}
use rustium.Cache.Recent.{Keeps, history, after_requests, after_requests-Keeps}

abbrev nat_eq : ℕ → ℕ → Bool
nat_eq a b = a == b

abbrev parse : ℕ → Result ℕ
parse k = if ltb k 100 then ok (k + 1) else err (encoding "schema is invalid")

abbrev requests : List ℕ
requests = 7 ∷ 8 ∷ 7 ∷ 100 ∷ 9 ∷ 8 ∷ []

last_two : (after_requests nat_eq parse requests (new 2)).order ≡ 9 ∷ 8 ∷ []
unfolding after_requests rustium.Common.Assoc.find rustium.Common.Assoc.insert new
last_two = refl

answers-eq-map_example : answers nat_eq parse requests (new 2) ≡ map parse requests
answers-eq-map_example = answers-eq-map nat_eq ==_iff parse 2 requests

after_requests-Keeps_example :
    IsCache nat_eq (after_requests nat_eq parse requests (new 2))
    × Keeps (history nat_eq parse requests []) (after_requests nat_eq parse requests (new 2))
after_requests-Keeps_example = after_requests-Keeps nat_eq ==_iff parse requests 2 (omega arith)
