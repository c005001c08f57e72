-- ===== src/Caltopo/Worker/Loop/Wakes.antt =====
-- No call of `Wake` is lost.
use mesthastic_caltopo_bridg.Prelude.{◌≡◌, refl, ◌⊎◌, inl, true, false, none, some, arith}
use mesthastic_caltopo_bridg.Go.Float.{Env}
use mesthastic_caltopo_bridg.Caltopo.Worker.{Outside}
use mesthastic_caltopo_bridg.Caltopo.Worker.Loop.{
  listing, Loop, wake_up, after_all, after_one, wakes, writes, goes_on, ticks, takes, stops, lists,
  sends, ends, Trace, still, move, has_listed,
}

module _ {W S F : Type 0} where
  -- The worker has a query before it: the channel is full, or the query is the next thing it does.
  abbrev pub IsOwed : Loop W S F → Type 0
  IsOwed a = (a.wake ≡ true) ⊎ (a.phase ≡ listing)

  module _ (env : Env F) (outside : Outside W F) where
    -- After a call of `Wake`, whatever the worker and the other goroutines do, until the worker queries
    -- the outbox again the channel is full or the query is the worker's next move.
    pub wake_up-IsOwed :
        (a b : Loop W S F) (t : Trace env outside (wake_up a) b)
        → has_listed env outside t ≡ false
        → IsOwed b
    unfolding wake_up has_listed after_all after_one
    wake_up-IsOwed a _ still h = inl refl
    wake_up-IsOwed a b (move t (wakes e)) h = ground arith
    wake_up-IsOwed a b (move t (writes db s e)) h = ground (arith, wake_up-IsOwed a _ t h)
    wake_up-IsOwed a b (move t (goes_on w e)) h = ground (arith, wake_up-IsOwed a _ t h)
    wake_up-IsOwed a b (move t (ticks s e)) h = ground arith
    wake_up-IsOwed a b (move t (takes s f e)) h = ground arith
    wake_up-IsOwed a b (move t (stops s e)) h = ground (arith, wake_up-IsOwed a _ t h)
    wake_up-IsOwed a b (move t (lists s e)) h = cc
    wake_up-IsOwed a b (move t (sends d ds n (w, none) s r e)) h =
        ground (arith, wake_up-IsOwed a _ t h)
    wake_up-IsOwed a b (move t (sends d ds n (w, some x) s r e)) h =
        ground (arith, wake_up-IsOwed a _ t h)
    wake_up-IsOwed a b (move t (ends n s e)) h = ground (arith, wake_up-IsOwed a _ t h)
