-- ===== src/Tests/Feeders.antt =====
-- A set of feeders, and a configuration of the para-oracle.
use paraxiom.Prelude.{
  suc, ◌<◌, ◌≡◌, refl, Bool, true, false, ◌&&◌, not, List, [], ◌∷◌, arith, length, ltb, ◌==◌,
  nat_eq, list_eq, pair_eq, if◌then◌else◌,
}
use paraxiom.Storage.{iter, iter-split, iter-get}
use paraxiom.ParaOracle.Combine.{combine_data}
use paraxiom.ParaOracle.State.{CreatorId, creator_eq, OrderedSet, Config}

unfoldable pub occurs : List CreatorId → CreatorId → Bool
occurs [] c = false
occurs (x ∷ xs) c = if x == c then true else occurs xs c

abbrev pub insert_bounded : CreatorId → List CreatorId → Bool × List CreatorId
insert_bounded c xs = if not (occurs xs c) && ltb (length xs) 3 then (true, c ∷ xs) else (false, xs)

pub insert_bounded_new :
    (c : CreatorId) (s : List CreatorId)
    → occurs s c ≡ false
    → length s < 3
    → (insert_bounded c s).0 ≡ true
insert_bounded_new c s absent_ room = ground arith

pub insert_bounded_only :
    (c : CreatorId) (s : List CreatorId) → (insert_bounded c s).0 ≡ true → occurs s c ≡ false
insert_bounded_only c s h = ground arith

pub occurs-insert_bounded :
    (c d : CreatorId) (s : List CreatorId)
    → (insert_bounded c s).0 ≡ true
    → occurs (insert_bounded c s).1 d ≡ (if c == d then true else occurs s d)
unfolding occurs
occurs-insert_bounded c d s h = ground arith

pub length-insert_bounded :
    (c : CreatorId) (s : List CreatorId)
    → (insert_bounded c s).0 ≡ true
    → length (insert_bounded c s).1 ≡ suc (length s)
length-insert_bounded c s h = ground arith

pub insert_bounded_refused :
    (c : CreatorId) (s : List CreatorId)
    → (insert_bounded c s).0 ≡ false
    → (insert_bounded c s).1 ≡ s
insert_bounded_refused c s h = ground arith

pub occurs_nil : (c : CreatorId) → occurs [] c ≡ false
unfolding occurs
occurs_nil c = refl

abbrev pub set : OrderedSet
set = record {
  Carrier = List CreatorId;
  default = [];
  contains = occurs;
  len = λ s. length s;
  max_len = 3;
  insert = insert_bounded;
  contains-default = occurs_nil;
  len-default = refl;
  insert_new = insert_bounded_new;
  insert_only = insert_bounded_only;
  contains-insert = occurs-insert_bounded;
  len-insert = length-insert_bounded;
  insert_refused = insert_bounded_refused;
}

-- Two fresh values suffice, and values expire after 100 ms.
abbrev pub config : Config
config = record {
  set = set;
  combine_data = λ now key values prev. combine_data 2 100 now values prev;
  encode_feed_back = λ key value. key;
  send_xcm = λ para call. true;
  iter_raw_values = λ m. iter m;
  iter_raw_values-get = λ m. iter-get m;
  iter_api_feeds = λ m. iter m;
  iter_api_feeds-split = λ m c key feed h. iter-split m (c, key) feed h;
}
