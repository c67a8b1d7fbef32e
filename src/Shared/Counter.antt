-- ===== src/Shared/Counter.antt =====
-- A table whose rows count the live rows of another table: what each write does to the count.
use Prim.Native.Nat.{ℕ, suc, ◌+◌, ◌-◌, ◌≤◌, ◌<◌}
use mathlib.Core.Path.{◌≡◌, refl, sym, subst}
use mathlib.Core.Logic.{inl, inr}
use mathlib.Core.Bool.{Bool, true, false, ◌&&◌}
use mathlib.Core.List.{List, [], ◌∷◌}
use mathlib.Core.Option.{some}
use native.Mathlib.Omega.{arith}
use innovents.Shared.Tests.{◌==◌, or_default, map_option, Bool-cases, Option-cases}
use innovents.Shared.Lists.{
  find_by, update_by, count_where, Absent, Unique, Below, Below-Absent, Below-suc, Below-update,
  Below-update_where, Unique-update, find_by-update_if, count-update_if, count-update_where,
}
use innovents.Shared.Removal.{remove_by, Unique-remove_by, Below-remove_by, count-remove_by}

module _ {A B : Type 0} (key count : A → ℕ) (child_key target : B → ℕ) (live : B → Bool) where
  abbrev pub is_child_of : ℕ → B → Bool
  is_child_of j b = target b == j && live b

  -- The counter of the row `j` is the number of its live children.
  pub record IsTallied (j : ℕ) (xs : List A) (ys : List B) (n : ℕ) : Type 0 where
    pub keys : Unique key xs
    pub fresh : Below key n xs
    pub child_keys : Unique child_key ys
    pub child_fresh : Below child_key n ys
    pub targets : Below target n ys
    pub tallied :
        or_default (map_option count (find_by key j xs)) (count_where (is_child_of j) ys)
        ≡ count_where (is_child_of j) ys

  no_children :
      (j n : ℕ) (ys : List B) → Below target n ys → n ≤ j → count_where (is_child_of j) ys ≡ 0
  no_children j n [] h above = refl
  no_children j n (y ∷ ys) h above = ground (arith, h.0, no_children j n ys h.1 above)

  module _ (j : ℕ) {xs : List A} {ys : List B} {n : ℕ} (h : IsTallied j xs ys n) where
    pub new_row-IsTallied : (x : A) → key x ≡ n → count x ≡ 0 → IsTallied j (x ∷ xs) ys (suc n)
    new_row-IsTallied x own zero_count = record {
      keys = (subst (λ (i : ℕ). Absent key i xs) (sym own) (Below-Absent key n xs h.fresh), h.keys);
      fresh = (omega (arith, own), Below-suc key n xs h.fresh);
      child_keys = h.child_keys;
      child_fresh = Below-suc child_key n ys h.child_fresh;
      targets = Below-suc target n ys h.targets;
      tallied = elim (Bool-cases (n == j)) [
        | inl mine ↦ ground (arith, no_children j n ys h.targets)
        | inr other ↦ ground (arith, h.tallied)
      ];
    }

    -- A row that starts with one child.
    pub new_pair-IsTallied :
        (x : A) (y : B)
        → key x ≡ n
        → count x ≡ 1
        → child_key y ≡ suc n
        → target y ≡ n
        → live y ≡ true
        → IsTallied j (x ∷ xs) (y ∷ ys) (suc (suc n))
    new_pair-IsTallied x y own one next place lives = record {
      keys = (subst (λ (i : ℕ). Absent key i xs) (sym own) (Below-Absent key n xs h.fresh), h.keys);
      fresh = (omega (arith, own), Below-suc key (suc n) xs (Below-suc key n xs h.fresh));
      child_keys = (
        subst (λ (i : ℕ). Absent child_key i ys) (sym next)
            (Below-Absent child_key (suc n) ys (Below-suc child_key n ys h.child_fresh)),
        h.child_keys,
      );
      child_fresh = (
        omega (arith, next),
        Below-suc child_key (suc n) ys (Below-suc child_key n ys h.child_fresh),
      );
      targets =
          (omega (arith, place), Below-suc target (suc n) ys (Below-suc target n ys h.targets));
      tallied = elim (Bool-cases (n == j)) [
        | inl mine ↦ ground (arith, no_children j n ys h.targets)
        | inr other ↦ ground (arith, h.tallied)
      ];
    }

    pub new_child-IsTallied :
        (y : B) (i : ℕ) (d : A → A)
        → child_key y ≡ n
        → target y ≡ i
        → live y ≡ true
        → i < n
        → ((x : A) → key (d x) ≡ key x)
        → ((x : A) → count (d x) ≡ count x + 1)
        → IsTallied j (update_by key i d xs) (y ∷ ys) (suc n)
    new_child-IsTallied y i d new place lives known own more = record {
      keys = Unique-update key i d xs own h.keys;
      fresh = Below-suc key n (update_by key i d xs) (Below-update key n i d xs own h.fresh);
      child_keys = (
        subst (λ (e : ℕ). Absent child_key e ys) (sym new)
            (Below-Absent child_key n ys h.child_fresh),
        h.child_keys,
      );
      child_fresh = (omega (arith, new), Below-suc child_key n ys h.child_fresh);
      targets = (omega (arith, place, known), Below-suc target n ys h.targets);
      tallied = elim (Option-cases (find_by key j xs)) [
        | inl missing ↦ ground (arith, h.tallied, find_by-update_if key j i d xs own)
        | inr (x, found) ↦ ground (arith, h.tallied, more x, find_by-update_if key j i d xs own)
      ];
    }

    pub remove_child-IsTallied :
        (y : B) (i : ℕ) (d : A → A)
        → find_by child_key (child_key y) ys ≡ some y
        → target y ≡ i
        → live y ≡ true
        → ((x : A) → key (d x) ≡ key x)
        → ((x : A) → count (d x) ≡ count x - 1)
        → IsTallied j (update_by key i d xs) (remove_by child_key (child_key y) ys) n
    remove_child-IsTallied y i d row place lives own fewer = record {
      keys = Unique-update key i d xs own h.keys;
      fresh = Below-update key n i d xs own h.fresh;
      child_keys = Unique-remove_by child_key (child_key y) ys h.child_keys;
      child_fresh = Below-remove_by child_key child_key n (child_key y) ys h.child_fresh;
      targets = Below-remove_by child_key target n (child_key y) ys h.targets;
      tallied = elim (Option-cases (find_by key j xs)) [
        | inl missing ↦ ground (arith, h.tallied, find_by-update_if key j i d xs own)
        | inr (x, found) ↦ ground (
          arith,
          h.tallied,
          fewer x,
          find_by-update_if key j i d xs own,
          count-remove_by child_key (is_child_of j) (child_key y) ys y h.child_keys row,
        )
      ];
    }

    -- A child stays where it is and lives no more.
    pub retire_child-IsTallied :
        (y : B) (i : ℕ) (f : B → B) (d : A → A)
        → find_by child_key (child_key y) ys ≡ some y
        → target y ≡ i
        → live y ≡ true
        → live (f y) ≡ false
        → ((z : B) → child_key (f z) ≡ child_key z)
        → ((z : B) → target (f z) ≡ target z)
        → ((x : A) → key (d x) ≡ key x)
        → ((x : A) → count (d x) ≡ count x - 1)
        → IsTallied j (update_by key i d xs) (update_by child_key (child_key y) f ys) n
    retire_child-IsTallied y i f d row place lives dead same stay own fewer = record {
      keys = Unique-update key i d xs own h.keys;
      fresh = Below-update key n i d xs own h.fresh;
      child_keys = Unique-update child_key (child_key y) f ys same h.child_keys;
      child_fresh = Below-update child_key n (child_key y) f ys same h.child_fresh;
      targets = Below-update_where target n (λ z. child_key z == child_key y) f ys stay h.targets;
      tallied = elim (Option-cases (find_by key j xs)) [
        | inl missing ↦ ground (arith, h.tallied, find_by-update_if key j i d xs own)
        | inr (x, found) ↦ ground (
          arith,
          h.tallied,
          fewer x,
          stay y,
          find_by-update_if key j i d xs own,
          count-update_if child_key (is_child_of j) f (child_key y) ys h.child_keys,
        )
      ];
    }

    pub edit_row-IsTallied :
        (i : ℕ) (d : A → A)
        → ((x : A) → key (d x) ≡ key x)
        → ((x : A) → count (d x) ≡ count x)
        → IsTallied j (update_by key i d xs) ys n
    edit_row-IsTallied i d own still = record {
      keys = Unique-update key i d xs own h.keys;
      fresh = Below-update key n i d xs own h.fresh;
      child_keys = h.child_keys;
      child_fresh = h.child_fresh;
      targets = h.targets;
      tallied = elim (Option-cases (find_by key j xs)) [
        | inl missing ↦ ground (arith, h.tallied, find_by-update_if key j i d xs own)
        | inr (x, found) ↦ ground (arith, h.tallied, still x, find_by-update_if key j i d xs own)
      ];
    }

    -- A change of a child that leaves it where and as alive as it was.
    pub edit_child-IsTallied :
        (e : ℕ) (f : B → B)
        → ((z : B) → child_key (f z) ≡ child_key z)
        → ((z : B) → target (f z) ≡ target z)
        → ((z : B) → live (f z) ≡ live z)
        → IsTallied j xs (update_by child_key e f ys) n
    edit_child-IsTallied e f same stay still = record {
      keys = h.keys;
      fresh = h.fresh;
      child_keys = Unique-update child_key e f ys same h.child_keys;
      child_fresh = Below-update child_key n e f ys same h.child_fresh;
      targets = Below-update_where target n (λ z. child_key z == e) f ys stay h.targets;
      tallied = ground (
        arith,
        h.tallied,
        count-update_where (is_child_of j) (λ z. child_key z == e) (is_child_of j) f ys
            (λ z. ground (arith, stay z, still z)),
      );
    }

    -- Another table takes an id.
    pub later-IsTallied : IsTallied j xs ys (suc n)
    later-IsTallied = record {
      keys = h.keys;
      fresh = Below-suc key n xs h.fresh;
      child_keys = h.child_keys;
      child_fresh = Below-suc child_key n ys h.child_fresh;
      targets = Below-suc target n ys h.targets;
      tallied = h.tallied;
    }
