-- ===== src/Core/Json.antt =====
-- `serde_json::Value` as plain data: what the program stores and compares, not the library's
-- parser and printer. An object is its list of members; a number is a natural, a negative
-- number (`negative n` is -(n + 1)) or a float by its bits.
use rustium.Common.{ℕ, Str, Bool, ℕ_discrete}

mutual
  pub data Json : Type 0 where
    null : Json
    boolean : Bool → Json
    natural negative float : ℕ → Json
    text : Str → Json
    array : Items → Json
    object : Members → Json

  pub data Items : Type 0 where
    nil : Items
    item : Json → Items → Items

  pub data Members : Type 0 where
    end : Members
    member : Str → Json → Members → Members

unfoldable pub Json-discrete : Discrete Json
unfolding ℕ_discrete
Json-discrete = hlevel (ℕ_discrete)

unfoldable pub Members-discrete : Discrete Members
unfolding ℕ_discrete
Members-discrete = hlevel (ℕ_discrete)
