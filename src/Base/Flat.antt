-- ===== src/Base/Flat.antt =====
-- The lists below a dictionary, one after the other, and how an update changes them.
use Prim.Native.String.{String}
use mathlib.Core.Path.{subst, sym}
use mathlib.Core.Logic.{inl, inr}
use mathlib.Core.Option.{Option, none, some}
use mathlib.Core.List.{List, [], ◌∷◌, ◌++◌, append-nil, append_assoc, Perm, perm_append_comm}
use mathlib.Core.List.Perm
use daili_usage_keeper_north.Base.Tests.{Bool-cases}
use daili_usage_keeper_north.Base.Text.{str_eq, eq_iff}
use daili_usage_keeper_north.Base.Dicts.{Dict, update}

perm_append_swap {ℓ} : {R : Type ℓ} (xs ys zs : List R) → Perm ((xs ++ ys) ++ zs) ((xs ++ zs) ++ ys)
perm_append_swap xs ys zs =
    subst (λ l. Perm l ((xs ++ zs) ++ ys)) (sym (append_assoc xs ys zs))
      (subst (λ l. Perm (xs ++ (ys ++ zs)) l) (sym (append_assoc xs zs ys))
        (Perm.append_left xs (perm_append_comm ys zs)))

module _ {ℓ κ} {V : Type ℓ} {R : Type κ} (f : String → V → List R) where
  abbrev pub flat : Dict V → List R
  flat [] = []
  flat ((k, v) ∷ m) = f k v ++ flat m

  abbrev pub rows_of : String → Option V → List R
  rows_of k none = []
  rows_of k (some v) = f k v

  -- If the update adds the row `r` to an entry, it adds it to the whole.
  pub flat-update :
      (k : String) (g : Option V → V) (r : R)
      → ((o : Option V) → Perm (f k (g o)) (rows_of k o ++ r ∷ []))
      → (m : Dict V) → Perm (flat (update k g m)) (flat m ++ r ∷ [])
  unfolding update
  flat-update k g r h [] = rw append-nil (h none)
  flat-update k g r h ((i, w) ∷ m) = elim (Bool-cases (str_eq i k)) [
    | inl e ↦ rw e (
        Perm.trans
          (Perm.append_right (flat m) (
            subst (λ j. Perm (f j (g (some w))) (f j w ++ r ∷ [])) (sym ((eq_iff i k).0 e))
              (h (some w))))
          (perm_append_swap (f i w) (r ∷ []) (flat m)))
    | inr e ↦ rw (e, append_assoc) (Perm.append_left (f i w) (flat-update k g r h m))
  ]
