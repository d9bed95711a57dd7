-- ===== src/Domain/Error.antt =====
-- Go's error values, as `fmt.Errorf` makes them. The numbers that some messages quote are left
-- out of the text.
use Prim.Native.Char.{code}
use insider_banking_project.Base.{
  ℕ, Bool, true, false, String, Option, none, some, List, [], ◌∷◌, ◌++◌, ◌==◌, ◌&&◌,
}

pub data Error : Type 0 where
  plain : String → Error
  -- `fmt.Errorf("context: %w", err)`
  wrap : String → Error → Error

abbrev pub codes : String → List ℕ
codes String.[] = []
codes (String.◌∷◌ c s) = code c ∷ codes s

abbrev pub codes_eq : List ℕ → List ℕ → Bool
codes_eq [] [] = true
codes_eq (x ∷ xs) (y ∷ ys) = x == y && codes_eq xs ys
codes_eq _ _ = false

-- `err.Error()`
abbrev pub message : Error → List ℕ
message (plain s) = codes s
message (wrap s e) = codes s ++ (codes ": " ++ message e)

-- A validation that passes returns nil. Run the second one if the first passes.
infixr 6 ◌then_check◌
abbrev pub ◌then_check◌ : Option Error → Option Error → Option Error
some e then_check b = some e
none then_check b = b

-- Return the error unless the test holds.
abbrev pub require : Bool → String → Option Error
require true s = none
require false s = some (plain s)

abbrev pub in_context : String → Option Error → Option Error
in_context s none = none
in_context s (some e) = some (wrap s e)
