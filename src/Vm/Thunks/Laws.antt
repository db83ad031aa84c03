-- ===== src/Vm/Thunks/Laws.antt =====
-- Which record `vm_lookup_thunk` finds.
use mette.Base.{
  ℕ, ◌≡◌, ◌≢◌, refl, arith, List, [], ◌∷◌, ◌++◌, All, ◌⊎◌, inl, inr, ap, ◌==◌, ==→eq, ==-refl,
  ne→==-false, Bool-cases,
}
use mette.Vm.Thunks.{ThunkRecord, lookup_thunk}

abbrev pub Others : ℕ → ThunkRecord → Type 0
Others hash r = r.hash ≢ hash

-- The first record of a hash is the one that is found.
pub lookup_thunk_first :
    (before after : List ThunkRecord) (r : ThunkRecord)
    → All (Others r.hash) before
    → lookup_thunk (before ++ (r ∷ after)) r.hash ≡ r.proc
unfolding lookup_thunk
lookup_thunk_first [] after r h = rw (==-refl r.hash)
lookup_thunk_first (b ∷ before) after r h =
    rw (ne→==-false b.hash r.hash h.0) (lookup_thunk_first before after r h.1)

-- A search either ends in the null pointer because no record has the hash, or it splits the
-- table at the first record of the hash, whose procedure it returns.
pub lookup_thunk_lem :
    (table : List ThunkRecord) (hash : ℕ)
    → ((lookup_thunk table hash ≡ 0) × All (Others hash) table)
      ⊎ ((before : List ThunkRecord) × (r : ThunkRecord) × (after : List ThunkRecord) × (table
            ≡ before ++ (r ∷ after))
          × (r.hash ≡ hash)
          × All (Others hash) before
          × (lookup_thunk table hash ≡ r.proc))
unfolding lookup_thunk
lookup_thunk_lem [] hash = inl (refl, tt)
lookup_thunk_lem (t ∷ rest) hash = elim (Bool-cases (t.hash == hash)) [
  | inl same ↦ inr ([], t, rest, refl, ==→eq _ _ same, tt, rw same)
  | inr other ↦ elim (lookup_thunk_lem rest hash) [
    | inl h ↦ inl (rw other h.0, (ground arith, h.1))
    | inr h ↦ inr (t ∷ h.0, h.1, h.2, ap (λ l. t ∷ l) h.3, h.4, (ground arith, h.5), rw other h.6)
  ]
]
