-- ===== src/Anchor/Cells.antt =====
-- A relation between the states before and after a call of the queue, from what writing to a cell and
-- freeing a cell keep.
use paraxiom.Prelude.{ℕ, zero, suc, ◌+◌, ◌%◌, Bool, arith, nat_eq, list_eq, pair_eq, ltb}
use paraxiom.Frame.{Bytes, H256, Exec, ensure, gets, ◌>>=◌}
use paraxiom.Errors.{anchor, name_not_exist, queue_is_full}
use paraxiom.Storage.{contains_key}
use paraxiom.Frame.Within.{
  Within, Within-same, Within-bind, Within-gets, Within-ensure, Within-expect, Within-pure,
}
use paraxiom.Anchor.State.{Anchor, Config, Index, at, label, u32_mod}
use paraxiom.Anchor.Queue.{
  queue_set, queue_get, queue_get_u32, queue_remove, queue_remove_from, queue_set_u32,
  queue_tail_set, queue_head, queue_tail, queue_len, queue_head_set, push_message, head_label,
  tail_label,
}

-- What the relation has to keep: writes of values of a kind to the name's queue, and removals.
pub record Cells (cfg : Config) (R : Anchor → Anchor → Type 0) (name : H256) (Ok : Bytes → Type 0)
    : Type 0 where
  pub same : (s : Anchor) → R s s
  pub then : (x y z : Anchor) → R x y → R y z → R x z
  pub writes : (x : Index) (v : Bytes) → Ok v → Within R (queue_set cfg name x v)
  pub frees : (x : Index) → Within R (queue_remove cfg name x)
  pub numbers : (n : ℕ) → Ok (cfg.codec.encode_u32 n)

module _ (cfg : Config) (R : Anchor → Anchor → Type 0) (name : H256) (Ok : Bytes → Type 0)
    (cells : Cells cfg R name Ok) where
  -- The rules of `Within` at this relation.
  and_then :
      {A B : Type 0} (m : Exec Anchor A) (f : A → Exec Anchor B)
      → Within R m
      → ((a : A) → Within R (f a))
      → Within R (m >>= f)
  and_then = Within-bind R cells.then

  queue_get_u32-keeps : (l : Bytes) → Within R (queue_get_u32 cfg name l)
  unfolding queue_get_u32 queue_get
  queue_get_u32-keeps l = Within-same R cells.same (queue_get_u32 cfg name l) λ s. ground arith

  queue_head-keeps : Within R (queue_head cfg name)
  unfolding queue_head
  queue_head-keeps =
      and_then (queue_get_u32 cfg name head_label) _ (queue_get_u32-keeps head_label)
        λ o. Within-expect R cells.same o

  queue_tail-keeps : Within R (queue_tail cfg name)
  unfolding queue_tail
  queue_tail-keeps =
      and_then (queue_get_u32 cfg name tail_label) _ (queue_get_u32-keeps tail_label)
        λ o. Within-expect R cells.same o

  queue_set_u32-keeps : (l : Bytes) (v : ℕ) → Within R (queue_set_u32 cfg name l v)
  unfolding queue_set_u32
  queue_set_u32-keeps l v =
      rw (cfg.codec.length-encode_u32 v)
        (cells.writes (label l) (cfg.codec.encode_u32 v) (cells.numbers v))

  queue_remove_from-keeps : (i n : ℕ) → Within R (queue_remove_from cfg name i n)
  unfolding queue_remove_from
  queue_remove_from-keeps i zero = Within-pure R cells.same tt
  queue_remove_from-keeps i (suc n) =
      and_then (queue_remove cfg name (at i)) _ (cells.frees (at i))
        λ _. queue_remove_from-keeps (i + 1) n

  queue_len-keeps : Within R (queue_len cfg name)
  unfolding queue_len
  queue_len-keeps =
      and_then (queue_tail cfg name) _ queue_tail-keeps
        λ tail. and_then (queue_head cfg name) _ queue_head-keeps λ head. Within-pure R cells.same _

  pub queue_head_set-keeps : (k : ℕ) → Within R (queue_head_set cfg name k)
  unfolding queue_head_set
  queue_head_set-keeps k = and_then (queue_head cfg name) _ queue_head-keeps λ head.
      and_then (queue_tail cfg name) _ queue_tail-keeps λ tail.
        and_then (ensure _ _) _ (Within-ensure R cells.same _ _) λ _.
          and_then (queue_remove_from cfg name head _) _ (queue_remove_from-keeps head _)
            λ _. queue_set_u32-keeps head_label k

  pub push_message-keeps : (v : Bytes) → Ok v → Within R (push_message cfg name v)
  unfolding push_message queue_tail_set
  push_message-keeps v ok_v =
      and_then (gets is_claimed) _ (Within-gets R cells.same is_claimed) λ claimed.
        and_then (ensure claimed (anchor name_not_exist)) _
          (Within-ensure R cells.same claimed (anchor name_not_exist))
          λ _. and_then (queue_len cfg name) _ queue_len-keeps λ len.
            and_then (ensure (ltb len cfg.queue_capacity) (anchor queue_is_full)) _
              (Within-ensure R cells.same (ltb len cfg.queue_capacity) (anchor queue_is_full))
              λ _. and_then (queue_tail cfg name) _ queue_tail-keeps λ end.
                and_then (queue_set cfg name (at end) v) _ (cells.writes (at end) v ok_v) λ _.
                  and_then (queue_set_u32 cfg name tail_label ((end + 1) % u32_mod)) _
                    (queue_set_u32-keeps tail_label ((end + 1) % u32_mod))
                    λ _. Within-pure R cells.same end
    where
      is_claimed : Anchor → Bool
      is_claimed s = contains_key s.submitter_by_names name
