-- ===== src/Invariant/Requests/Queue.antt =====
-- The queue of requests as a list: entries taken out, and entries changed in place.
use meshias.Base.{ℕ, ◌≡◌, ◌≢◌, sym, subst, ◌∙◌, none, some, List, [], ◌∷◌, arith, All, ==_iff}
use native.Mathlib.Decide.{ℕ_discrete}
use meshias.State.{RreqEntry}
use meshias.RreqFifo.{remove_entry}
use meshias.Logic.Discovery.{find_entry, map_entry}

abbrev pub DistinctPtr : List RreqEntry → Type 0
DistinctPtr [] = Unit
DistinctPtr (e ∷ rest) = All (λ f. f.ptr ≢ e.ptr) rest × DistinctPtr rest

module _ (p : ℕ) where
  pub All-remove_entry :
      (P : RreqEntry → Type 0) (l : List RreqEntry) → All P l → All P (remove_entry p l)
  unfolding remove_entry
  All-remove_entry P [] h = tt
  All-remove_entry P (e ∷ rest) h = ground (arith, All-remove_entry P rest h.1)

  -- An address that only one entry has is gone with it.
  pub remove_entry-others :
      (l : List RreqEntry) → DistinctPtr l → All (λ e. e.ptr ≢ p) (remove_entry p l)
  unfolding remove_entry
  remove_entry-others [] h = tt
  remove_entry-others (e ∷ rest) h = elim (ℕ_discrete e.ptr p) [
    | yes same ↦ rw ((==_iff e.ptr p).1 same) (subst (λ q. All (λ f. f.ptr ≢ q) rest) same h.0)
    | no other ↦ ground (arith, other, remove_entry-others rest h.1)
  ]

  pub DistinctPtr-remove_entry :
      (l : List RreqEntry) → DistinctPtr l → DistinctPtr (remove_entry p l)
  unfolding remove_entry
  DistinctPtr-remove_entry [] h = tt
  DistinctPtr-remove_entry (e ∷ rest) h =
      ground
        (arith, All-remove_entry (λ f. f.ptr ≢ e.ptr) rest h.0, DistinctPtr-remove_entry rest h.1)

  module _ (f : RreqEntry → RreqEntry) where
    pub All-map_entry :
        (P : RreqEntry → Type 0)
        → ((e : RreqEntry) → P e → P (f e))
        → (l : List RreqEntry) → All P l
        → All P (map_entry p f l)
    unfolding map_entry
    All-map_entry P k [] h = tt
    All-map_entry P k (e ∷ rest) h = ground (arith, k e h.0, All-map_entry P k rest h.1)

    pub DistinctPtr-map_entry :
        ((e : RreqEntry) → (f e).ptr ≡ e.ptr)
        → (l : List RreqEntry) → DistinctPtr l
        → DistinctPtr (map_entry p f l)
    unfolding map_entry
    DistinctPtr-map_entry k [] h = tt
    DistinctPtr-map_entry k (e ∷ rest) h = ground (
      arith,
      k e,
      subst (λ q. All (λ g. g.ptr ≢ q) rest) (sym (k e)) h.0,
      All-map_entry (λ g. g.ptr ≢ e.ptr) (λ g d same. d (sym (k g) ∙ same)) rest h.0,
      DistinctPtr-map_entry k rest h.1,
    )

pub All-both :
    {P Q R : RreqEntry → Type 0}
    → ((e : RreqEntry) → P e → Q e → R e)
    → (l : List RreqEntry) → All P l
    → All Q l
    → All R l
All-both k [] hp hq = tt
All-both k (e ∷ rest) hp hq = (k e hp.0 hq.0, All-both k rest hp.1 hq.1)

-- What a search of the queue tells.
pub find_entry-ptr :
    (p : ℕ) (e : RreqEntry) (l : List RreqEntry) → find_entry p l ≡ some e → e.ptr ≡ p
unfolding find_entry
find_entry-ptr p e [] h = cc
find_entry-ptr p e (f ∷ rest) h = ground (arith, h, find_entry-ptr p e rest)

pub find_entry-none : (p : ℕ) (l : List RreqEntry) → find_entry p l ≡ none → All (λ e. e.ptr ≢ p) l
unfolding find_entry
find_entry-none p [] h = tt
find_entry-none p (f ∷ rest) h = ground (arith, h, find_entry-none p rest)
