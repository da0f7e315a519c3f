-- ===== src/Governance/Texts.antt =====
-- Texts that a context holds, described apart from the code that reads them (packages/foundation/core).
use euroclaw.Json.{Json, str}
use euroclaw.Governance.Boundary.{Context, lookup, text_value, text_at}
use euroclaw.Prelude.{String, ◌≡◌, ap, ◌↔◌, Option, none, some, arith, some_inj}

-- A field that is the text of a key of the context, and absent where the key holds no text.
abbrev pub IsTextOf : String → Context → Option String → Type 0
IsTextOf key ctx field = (v : String) → (field ≡ some v) ↔ (lookup key ctx ≡ some (str v))

text_value-str : (o : Option Json) (v : String) → text_value o ≡ some v → o ≡ some (str v)
text_value-str none v h = ground arith
text_value-str (some (str s)) v h = ap (λ t. some (str t)) (some_inj h)
text_value-str (some Json.null) v h = ground arith
text_value-str (some (Json.bool b)) v h = ground arith
text_value-str (some (Json.num n)) v h = ground arith
text_value-str (some (Json.arr es)) v h = ground arith
text_value-str (some (Json.obj ps)) v h = ground arith
text_value-str (some (Json.opaque n)) v h = ground arith

pub text_at-IsTextOf : (key : String) (ctx : Context) → IsTextOf key ctx (text_at key ctx)
unfolding text_at
text_at-IsTextOf key ctx v = (text_value-str (lookup key ctx) v, λ h. ap text_value h)
