-- ===== src/Prelude/Table.antt =====
-- A database table keyed by its primary key: rows in the order of insertion.
use mathlib.Core.Path.{◌≡◌, refl}
use mathlib.Core.Option.{Option, none, some}
use mathlib.Core.List.{List, [], ◌∷◌}
use native.Mathlib.Omega.{arith}
use threadmesh.Prelude.Tests.{Eq, ◌==◌, if◌then◌else◌, beq_refl}

module _ {ℓ κ} {K : Type ℓ} {V : Type κ} ⦃e : Eq K⦄ where
  -- `SELECT * FROM t WHERE key = k`.
  unfoldable pub find : K → List (K × V) → Option V
  find k [] = none
  find k ((j, v) ∷ t) = if j == k then some v else find k t

  -- `UPDATE t SET … WHERE key = k` on a row that is there, `INSERT` at the end if it is not.
  unfoldable pub put : K → V → List (K × V) → List (K × V)
  put k v [] = (k, v) ∷ []
  put k v ((j, w) ∷ t) = if j == k then (j, v) ∷ t else (j, w) ∷ put k v t

  pub find-put :
      (k j : K) (v : V) (t : List (K × V))
      → find j (put k v t) ≡ (if k == j then some v else find j t)
  unfolding find put
  find-put k j v [] = refl
  find-put k j v ((i, w) ∷ t) =
      ground (arith, e.beq_iff k j, e.beq_iff i k, e.beq_iff i j, find-put k j v t)

  pub find-put_self : (k : K) (v : V) (t : List (K × V)) → find k (put k v t) ≡ some v
  find-put_self k v t = simp (find-put, beq_refl)
