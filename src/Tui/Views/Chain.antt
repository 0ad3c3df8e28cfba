-- ===== src/Tui/Views/Chain.antt =====
-- The parent chain ends, and what it shows.
use just_give_my_disk.Common.{
  ℕ, zero, suc, ◌+◌, ◌^◌, ◌<◌, ◌≡◌, ◌≢◌, refl, Bool, true, false, Option, none, some, List, [], ◌∷◌,
  OnSome, ◌==◌, arith,
}
use just_give_my_disk.Database.{StoredRecord}
use just_give_my_disk.Output.Result.{Result, ok, bind, Settles, settled, Settles-bind, Settles-elim}
use just_give_my_disk.Recover.Tree.{contains_id}
use just_give_my_disk.Recover.Tree.Visits.{unvisited, unvisited-cons, unvisited-lt}
use just_give_my_disk.Tui.Views.{
  ChainLine, shown, not_found, is_last, climb, chain_loop, parent_chain,
}

-- The record's number fits its field.
abbrev pub HasId64 : StoredRecord → Type 0
HasId64 record_ = record_.record_id_guess < 2 ^ 64

module _ (get_by_record_id : ℕ → Result (Option StoredRecord)) where
  -- The lines from a record on, behind the numbers that were shown: the chain ends at a record without
  -- a parent, at one whose number was shown before, or at a parent that the index does not have.
  pub data IsChain : List ℕ → StoredRecord → List ChainLine → Type 0 where
    top :
        {visited : List ℕ} {record_ : StoredRecord}
        → record_.parent_ref ≡ 0
        → IsChain visited record_ (shown record_ ∷ [])
    cycle :
        {visited : List ℕ} {record_ : StoredRecord}
        → record_.parent_ref ≢ 0
        → contains_id visited record_.record_id_guess ≡ true
        → IsChain visited record_ (shown record_ ∷ [])
    orphan :
        {visited : List ℕ} {record_ : StoredRecord}
        → record_.parent_ref ≢ 0
        → contains_id visited record_.record_id_guess ≡ false
        → get_by_record_id record_.parent_ref ≡ ok none
        → IsChain visited record_ (shown record_ ∷ not_found record_.parent_ref ∷ [])
    up :
        {visited : List ℕ} {record_ parent : StoredRecord} {lines : List ChainLine}
        → record_.parent_ref ≢ 0
        → contains_id visited record_.record_id_guess ≡ false
        → get_by_record_id record_.parent_ref ≡ ok (some parent)
        → IsChain (record_.record_id_guess ∷ visited) parent lines
        → IsChain visited record_ (shown record_ ∷ lines)

  last-IsChain :
      (visited : List ℕ) (record_ : StoredRecord)
      → is_last visited record_ ≡ true
      → IsChain visited record_ (shown record_ ∷ [])
  last-IsChain visited record_ t = split (record_.parent_ref == 0) refl
    where
      split :
          (b : Bool) → (record_.parent_ref == 0) ≡ b → IsChain visited record_ (shown record_ ∷ [])
      split true e = top (ground arith)
      split false e = cycle (λ z. ground (arith, z, e)) (ground (arith, t))

  module _ (bound : ℕ)
      (found : (id : ℕ)
        → Settles (OnSome (λ r. r.record_id_guess < bound)) (get_by_record_id id)) where
    chain_loop-IsChain :
        (fuel : ℕ) (visited : List ℕ) (record_ : StoredRecord)
        → record_.record_id_guess < bound
        → unvisited bound visited < fuel
        → Settles (IsChain visited record_) (chain_loop get_by_record_id fuel visited record_)
    unfolding chain_loop
    chain_loop-IsChain zero visited record_ h l = elim l [ ]
    chain_loop-IsChain (suc fuel) visited record_ h l =
        Settles-elim (is_last visited record_) (λ t. settled (last-IsChain visited record_ t))
          (λ f.
            let new : contains_id visited record_.record_id_guess ≡ false = ground (arith, f) in
            let child : record_.parent_ref ≢ 0 = λ z. ground (arith, f, z) in
            let less = unvisited-cons bound record_.record_id_guess visited h new in
            Settles-bind (found record_.parent_ref) (λ parent e k. go parent e k child new (λ p i.
              chain_loop-IsChain fuel (record_.record_id_guess ∷ visited) p i
                (omega (arith, less, l)))))
      where
        visited' : List ℕ
        visited' = record_.record_id_guess ∷ visited

        go :
            (parent : Option StoredRecord)
            → get_by_record_id record_.parent_ref ≡ ok parent
            → OnSome (λ r. r.record_id_guess < bound) parent
            → record_.parent_ref ≢ 0
            → contains_id visited record_.record_id_guess ≡ false
            → ((p : StoredRecord)
                → p.record_id_guess < bound
                → Settles (IsChain visited' p) (chain_loop get_by_record_id fuel visited' p))
            → Settles (IsChain visited record_) (
                bind
                  (climb get_by_record_id
                    (chain_loop get_by_record_id fuel visited')
                    record_.parent_ref
                    parent)
                  (λ lines. ok (shown record_ ∷ lines)))
        go none e k child new again = settled (orphan child new e)
        go (some p) e k child new again =
            Settles-bind (again p k) (λ lines _ c. settled (up child new e c))

  -- If the query of a record ends, with records of 64-bit numbers or an exception, then so does
  -- `parent_chain`, also where records are their own ancestors. It shows the record and its ancestors,
  -- each the index's record of the parent before it, up to one without a parent, to a number that was
  -- shown before, or to a parent that is not in the index.
  pub parent_chain-IsChain :
      (record_ : StoredRecord)
      → ((id : ℕ) → Settles (OnSome HasId64) (get_by_record_id id))
      → HasId64 record_
      → Settles (IsChain [] record_) (parent_chain get_by_record_id record_)
  unfolding parent_chain
  parent_chain-IsChain record_ found h =
      chain_loop-IsChain (2 ^ 64) found (2 ^ 64 + 1) [] record_ h (unvisited-lt (2 ^ 64) [])
