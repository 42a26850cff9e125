-- ===== src/Dict.antt =====
-- utils/dict.c: the hash table with 256 chained buckets, as far as its own operations on tagged
-- keys and values; its typed entry points are in the child module Typed.
pub mod Chain
pub mod Sum
pub mod Invariant
pub mod Laws
pub mod Map
pub mod Clear
pub mod Typed
pub mod Access
pub mod Strings
pub mod Numbers
pub mod Refines
use holyhttp.ListHead.{ListHead}
use holyhttp.Prelude.{
  ℕ, zero, suc, ◌+◌, ◌-◌, ◌*◌, ◌%◌, ◌^◌, ◌≤◌, ◌<◌, ◌≡◌, List, [], ◌∷◌, ◌++◌, Option, none, some,
  arith, if◌then◌else◌, ◌==◌, ◌&&◌, ◌||◌, Bool, true, false, not, length,
}
use mathlib.Core.Option
use holyhttp.Tlv.{Tlv, tlv_hash, tlv_is_equal}
use Chain.{Kv, find_kv}

-- The fields of `dict_t` that hold data. The array of buckets is a function of the index; the
-- function pointers, which never change after `holy_dict_init`, are left out.
pub record Dict (lists : ListHead Kv) : Type 0 where
  pub count : ℕ
  pub kvs : ℕ → lists.Head
  pub inited : Bool

abbrev pub dict_hash_size : ℕ
dict_hash_size = 2 ^ 8

-- `DICT_HASH`; the mask is the size less one.
unfoldable pub bucket : Tlv → ℕ
bucket key = tlv_hash key % dict_hash_size

module _ (lists : ListHead Kv) where
  -- The whole state after `memset` and `INIT_LIST_HEAD` on every bucket.
  unfoldable pub fresh : Dict lists
  fresh = record { count = 0; kvs = λ i. lists.init; inited = true }

  -- `holy_dict_init` on a dictionary: nothing happens to one that is initialised.
  unfoldable pub dict_init : Dict lists → Dict lists
  unfolding fresh
  dict_init self = if self.inited then self else fresh

  -- `self->kvs[i] = h`
  unfoldable pub set_bucket : Dict lists → ℕ → lists.Head → ℕ → lists.Head
  set_bucket self j h i = if i == j then h else self.kvs i

  -- The position and the entry of a key in its bucket.
  unfoldable pub dict_find : Dict lists → Tlv → Option (ℕ × Kv)
  unfolding bucket
  dict_find self key = find_kv key (lists.items (self.kvs (bucket key)))

  -- `dict_rm_kv` of the entry at position `pos` of bucket `i`.
  unfoldable pub dict_rm_kv : Dict lists → ℕ → ℕ → Dict lists
  unfolding set_bucket
  dict_rm_kv self i pos = record self {
    count = (self.count + (2 ^ 32 - 1)) % 2 ^ 32;
    kvs = set_bucket self i (lists.del pos (self.kvs i));
  }

  unfoldable pub dict_get : Dict lists → Tlv → Option Tlv
  unfolding dict_find
  dict_get self key = Option.map (λ r. r.1.value) (dict_find self key)

  unfoldable pub dict_del : Dict lists → Tlv → Dict lists
  unfolding dict_find dict_rm_kv
  dict_del self key = elim (dict_find self key) [
    | none ↦ self
    | some (pos, kv) ↦ dict_rm_kv self (bucket key) pos
  ]

  -- `list_add_tail` and `++count`.
  unfoldable pub dict_add_kv : Dict lists → Kv → Dict lists
  unfolding set_bucket
  dict_add_kv self kv = record self {
    count = (self.count + 1) % 2 ^ 32;
    kvs = set_bucket self (bucket kv.key) (lists.add_tail kv (self.kvs (bucket kv.key)));
  }

  -- `alloc` says whether `malloc` gives the new entry. The old entry of the key goes first, as in
  -- `dict_del`.
  unfoldable pub dict_set : Bool → Dict lists → Tlv → Tlv → Bool × Dict lists
  unfolding dict_del dict_add_kv
  dict_set alloc self key value =
      if alloc
      then (true, dict_add_kv (dict_del self key) (record { key = key; value = value }))
      else (false, self)

  -- The entries that `dict_foreach` hands to its handler, from bucket `i` on for `n` buckets.
  unfoldable pub entries_from : ℕ → ℕ → Dict lists → List Kv
  entries_from zero i self = []
  entries_from (suc n) i self = lists.items (self.kvs i) ++ entries_from n (suc i) self

  unfoldable pub dict_foreach : Dict lists → List Kv
  unfolding entries_from
  dict_foreach self = entries_from dict_hash_size 0 self

  -- One bucket: `n` entries are removed from its front.
  unfoldable pub clear_bucket : ℕ → ℕ → Dict lists → Dict lists
  unfolding dict_rm_kv
  clear_bucket zero i self = self
  clear_bucket (suc n) i self = clear_bucket n i (dict_rm_kv self i 0)

  unfoldable pub clear_from : ℕ → ℕ → Dict lists → Dict lists
  unfolding clear_bucket
  clear_from zero i self = self
  clear_from (suc n) i self =
      clear_from n (suc i) (clear_bucket (length (lists.items (self.kvs i))) i self)

  unfoldable pub dict_clear : Dict lists → Dict lists
  unfolding clear_from
  dict_clear self = clear_from dict_hash_size 0 self
