-- ===== src/Prelude/Js.antt =====
-- The values of JavaScript that the modelled code reads as numbers, and `Number(v)` on them.
use mathlib.Core.Option.{Option, none, some}
use pdexplorer.Prelude.Int.{ℤ, pos}

-- `blank` is the empty string. `nan` stands for every value that `Number` takes to NaN or to an
-- infinity. A text that holds an integer stands as that integer.
pub data JsValue : Type 0 where
  undefined null blank nan : JsValue
  int : ℤ → JsValue

-- `Number(v)` where it is finite.
abbrev pub number : JsValue → Option ℤ
number undefined = none
number null = some (pos 0)
number blank = some (pos 0)
number nan = none
number (int z) = some z
