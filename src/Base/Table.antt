-- ===== src/Base/Table.antt =====
-- Checking a property of every number below a small bound by evaluation.
use Prim.Native.Nat.{ℕ, zero, suc, ◌<◌}
use mathlib.Core.Path.{◌≡◌}
use mathlib.Core.Bool.{Bool, true, false}
use mathlib.Core.Logic.{inl, inr}
use fs_playground.Base.Tests.{◌==◌, if◌then◌else◌, Bool-cases}
use native.Mathlib.Omega.{arith}

unfoldable pub holds_until : (ℕ → Bool) → ℕ → Bool
holds_until test zero = true
holds_until test (suc last) = if test last then holds_until test last else false

pub holds_until_lem :
    (test : ℕ → Bool) (limit : ℕ)
    → holds_until test limit ≡ true
    → (x : ℕ) → x < limit
    → test x ≡ true
unfolding holds_until
holds_until_lem test zero table x small = absurd (omega (arith, small))
holds_until_lem test (suc last) table x small =
    let before = holds_until_lem test last in
    elim (Bool-cases (test last)) [
      | inl here ↦ elim (Bool-cases (x == last)) [
        | inl e ↦ let e' : x ≡ last = ground arith in rw e' here
        | inr ne ↦ before (rw here at table) x (ground arith)
      ]
      | inr gone ↦ ground (arith, gone, table)
    ]
