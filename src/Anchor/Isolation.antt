-- ===== src/Anchor/Isolation.antt =====
-- Names are isolated: what is done for one name leaves the stores of all others, and the owners of
-- all names, as they are.
use paraxiom.Prelude.{ℕ, ◌≡◌, ◌≢◌, refl, ◌∙◌, arith, nat_beq_iff, nat_eq, list_eq, pair_eq}
use paraxiom.Frame.{Bytes, H256, Exec, lift, ◌>>=◌}
use paraxiom.Storage.{get, get-insert, get-remove}
use paraxiom.Frame.Within.{Within, Within-bind, Within-lift}
use paraxiom.Anchor.Cells.{Cells, queue_head_set-keeps, push_message-keeps}
use paraxiom.Anchor.State.{Anchor, Config, Index}
use paraxiom.Anchor.Queue.{queue_set, queue_remove, queue_head_set, push_message, queue_key}

pub record SameElsewhere (name : H256) (s t : Anchor) : Type 0 where
  pub owners : t.submitter_by_names ≡ s.submitter_by_names
  pub elsewhere :
      (other : H256) (key : Bytes)
      → name ≢ other
      → get t.states (other, key) ≡ get s.states (other, key)

module _ (name : H256) where
  pub SameElsewhere-refl : (s : Anchor) → SameElsewhere name s s
  SameElsewhere-refl s = record { owners = refl; elsewhere = λ other key ne. refl }

  pub SameElsewhere-trans :
      (s t u : Anchor) → SameElsewhere name s t → SameElsewhere name t u → SameElsewhere name s u
  SameElsewhere-trans s t u p q = record {
    owners = q.owners ∙ p.owners;
    elsewhere = λ other key ne. q.elsewhere other key ne ∙ p.elsewhere other key ne;
  }

  abbrev Stays : {A : Type 0} → Exec Anchor A → Type 0
  Stays = Within (SameElsewhere name)

  -- The rules of `Within` at this relation.
  and_then :
      {A B : Type 0} (m : Exec Anchor A) (f : A → Exec Anchor B)
      → Stays m
      → ((a : A) → Stays (f a))
      → Stays (m >>= f)
  and_then = Within-bind (SameElsewhere name) SameElsewhere-trans

  module _ (cfg : Config) where
    key_of-Stays : (x : Index) → Stays (lift {S = Anchor} (queue_key cfg x))
    key_of-Stays x = Within-lift (SameElsewhere name) SameElsewhere-refl (queue_key cfg x)

    queue_set-Stays : (x : Index) (v : Bytes) → Stays (queue_set cfg name x v)
    unfolding queue_set
    queue_set-Stays x v = and_then (lift (queue_key cfg x)) _ (key_of-Stays x) λ key. record {
      moves = λ s. record {
        owners = refl;
        elsewhere = λ other k ne.
            ground (arith, get-insert s.states (name, key) (other, k) v, nat_beq_iff name other);
      };
    }

    queue_remove-Stays : (x : Index) → Stays (queue_remove cfg name x)
    unfolding queue_remove
    queue_remove-Stays x = and_then (lift (queue_key cfg x)) _ (key_of-Stays x) λ key. record {
      moves = λ s. record {
        owners = refl;
        elsewhere = λ other k ne.
            ground (arith, get-remove s.states (name, key) (other, k), nat_beq_iff name other);
      };
    }

    SameElsewhere-Cells : Cells cfg (SameElsewhere name) name (λ v. Unit)
    SameElsewhere-Cells = record {
      same = SameElsewhere-refl;
      then = SameElsewhere-trans;
      writes = λ x v h. queue_set-Stays x v;
      frees = queue_remove-Stays;
      numbers = λ n. tt;
    }

    pub queue_head_set-Stays : (k : ℕ) → Stays (queue_head_set cfg name k)
    queue_head_set-Stays k =
        queue_head_set-keeps cfg (SameElsewhere name) name (λ v. Unit) SameElsewhere-Cells k

    pub push_message-Stays : (v : Bytes) → Stays (push_message cfg name v)
    push_message-Stays v =
        push_message-keeps cfg (SameElsewhere name) name (λ v. Unit) SameElsewhere-Cells v tt
