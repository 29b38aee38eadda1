-- ===== src/Mpro/Pipeline/Ownership.antt =====
-- mpro_pipeline.c: the weight of the transfers in each place where a transfer can be, and what each
-- section does to it.
use packages.Base.{
  ℕ, zero, suc, ◌+◌, ◌≡◌, refl, Bool, Option, none, some, List, [], ◌∷◌, ◌++◌, arith, is_some,
}
use packages.Base.Errno.{Ret}
use packages.Mpro.Pipeline.Xfer.{Xfer, Pipe, Origin, io_shutdown}
use packages.Mpro.Pipeline.Alloc.{Memory, Compressor, Area, xfer_alloc, xfer_alloc_compressed}
use packages.Mpro.Pipeline.Send.{send_enter, after_submit}
use packages.Mpro.Pipeline.Complete.{complete_enter, bulk_complete}
use packages.Mpro.Pipeline.System.{System, allocate}

-- Transfers are weighed by their address, so that one invariant counts each and all of them.
module _ (f : ℕ → ℕ) where
  abbrev pub weigh_held : List Xfer → ℕ
  weigh_held [] = 0
  weigh_held (t ∷ ts) = f t.id + weigh_held ts

  abbrev pub weigh_slot : Option Xfer → ℕ
  weigh_slot none = 0
  weigh_slot (some t) = f t.id

  abbrev pub weigh_freed : List (ℕ × Option Origin) → ℕ
  weigh_freed [] = 0
  weigh_freed ((i, how) ∷ is) = f i + weigh_freed is

  abbrev pub weigh_pipe : Pipe → ℕ
  weigh_pipe p = weigh_slot p.current_xfer + weigh_slot p.pending_xfer + weigh_freed p.freed

  abbrev pub weigh_below : ℕ → ℕ
  weigh_below zero = 0
  weigh_below (suc n) = f n + weigh_below n

  abbrev pub IsBalanced : System → Type 0
  IsBalanced s = weigh_held s.hands + weigh_pipe s.pipe ≡ weigh_below s.pipe.allocated

  pub weigh_held-middle :
      (before : List Xfer) (t : Xfer) (after : List Xfer)
      → weigh_held (before ++ t ∷ after) ≡ f t.id + weigh_held (before ++ after)
  weigh_held-middle [] t after = refl
  weigh_held-middle (u ∷ before) t after = omega (arith, weigh_held-middle before t after)

  weigh_below-add : (n : ℕ) → weigh_below (n + 1) ≡ f n + weigh_below n
  weigh_below-add n = ground arith

  -- An allocation brings one new transfer, or none.
  abbrev pub Brings : Pipe → Option Xfer × Pipe → Type 0
  Brings p (got, q) =
      weigh_slot got + weigh_pipe q + weigh_below p.allocated
      ≡ weigh_pipe p + weigh_below q.allocated

  pub xfer_alloc-Brings :
      (m : Memory) (partial : Bool) (src : Option (List ℕ)) (len : ℕ) (a : Area) (p : Pipe)
      → Brings p (xfer_alloc m partial src len a p)
  unfolding xfer_alloc
  xfer_alloc-Brings m partial src len a p = ground (arith, weigh_below-add p.allocated)

  pub xfer_alloc_compressed-Brings :
      (lz4 : Compressor) (m : Memory) (partial : Bool) (src : List ℕ) (len : ℕ) (a : Area)
      (p : Pipe)
      → Brings p (xfer_alloc_compressed lz4 m partial src len a p)
  unfolding xfer_alloc_compressed
  xfer_alloc_compressed-Brings lz4 m partial src len a p =
      ground (arith, weigh_below-add p.allocated)

  pub allocate-IsBalanced :
      (s : System) (r : Option Xfer × Pipe)
      → Brings s.pipe r
      → IsBalanced s
      → IsBalanced (allocate r s)
  unfolding allocate
  allocate-IsBalanced s (none, q) b h = omega arith
  allocate-IsBalanced s (some t, q) b h = omega arith

  pub send_enter-weight :
      (t : Xfer) (p : Pipe)
      → is_some p.current_xfer ≡ p.in_flight
      → (weigh_pipe (send_enter t p).1 ≡ f t.id + weigh_pipe p)
        × ((send_enter t p).1.allocated ≡ p.allocated)
  unfolding send_enter
  send_enter-weight t p h = ground arith

  pub after_submit-weight :
      (ret : Ret) (t : Xfer) (p : Pipe)
      → p.current_xfer ≡ some t
      → (weigh_pipe (after_submit ret t p).1 ≡ weigh_pipe p)
        × ((after_submit ret t p).1.allocated ≡ p.allocated)
  unfolding after_submit
  after_submit-weight ret t p h = ground arith

  pub complete_enter-weight :
      (p : Pipe)
      → (weigh_pipe (complete_enter p).1 ≡ weigh_pipe p)
        × ((complete_enter p).1.allocated ≡ p.allocated)
  unfolding complete_enter
  complete_enter-weight p = ground arith

  pub bulk_complete-weight :
      (status now : ℕ) (p : Pipe)
      → (weigh_pipe (bulk_complete status now p) ≡ weigh_pipe p)
        × ((bulk_complete status now p).allocated ≡ p.allocated)
  unfolding bulk_complete
  bulk_complete-weight status now p = ground arith

  pub io_shutdown-weight :
      (p : Pipe)
      → (weigh_pipe (io_shutdown p) ≡ weigh_pipe p) × ((io_shutdown p).allocated ≡ p.allocated)
  unfolding io_shutdown
  io_shutdown-weight p = ground arith
