-- ===== src/Dict/Refines.antt =====
-- Every run of the operations of utils/dict.c against the run of an abstract map from keys to values,
-- which has no buckets, no hashes and no order.
use holyhttp.ListHead.{ListHead}
use holyhttp.Prelude.{
  ◌≡◌, refl, List, [], ◌∷◌, Option, none, some, if◌then◌else◌, Bool, true, false, All, ap, sym, ◌∙◌,
  subst, Bool-cases, inl, inr,
}
use native.Mathlib.Decide.{ℕ_discrete}
use holyhttp.Tlv.{Tlv, TlvType, tlv_bin}
use holyhttp.Tlv.Laws.{IsValid, tlv_is_equal_iff}
use holyhttp.Dict.Chain.{Kv, same_key}
use holyhttp.Dict.{Dict, fresh, dict_get, dict_set, dict_del, dict_clear}
use holyhttp.Dict.Invariant.{IsDict}
use holyhttp.Dict.Map.{fresh-IsDict, dict_set-dict_get, dict_del-dict_get}
use holyhttp.Dict.Clear.{dict_clear-dict_get}

-- A call: `alloc` says whether the entry can be allocated.
pub data DictCall : Type 0 where
  set_call : Bool → Tlv → Tlv → DictCall
  del_call : Tlv → DictCall
  clear_call : DictCall

abbrev pub HasValidKey : DictCall → Type 0
HasValidKey (set_call alloc k v) = IsValid k
HasValidKey (del_call k) = IsValid k
HasValidKey clear_call = Unit {0}

TlvType-discrete : Discrete TlvType
TlvType-discrete = hlevel

Tlv-discrete : Discrete Tlv
Tlv-discrete = hlevel (TlvType-discrete, ℕ_discrete)

-- The abstract map.
abbrev pub TlvMap : Type 0
TlvMap = Tlv → Option Tlv

pub put : Tlv → Option Tlv → TlvMap → TlvMap
put k o m q = elim (Tlv-discrete k q) [ yes e ↦ o | no ne ↦ m q ]

unfoldable pub call_map : DictCall → TlvMap → TlvMap
call_map (set_call alloc k v) m = if alloc then put k (some v) m else m
call_map (del_call k) m = put k none m
call_map clear_call m = λ q. none

unfoldable pub run_map : List DictCall → TlvMap → TlvMap
unfolding call_map
run_map [] m = m
run_map (c ∷ cs) m = run_map cs (call_map c m)

put_lem :
    (k q : Tlv) (o : Option Tlv) (m : TlvMap)
    → IsValid k
    → IsValid q
    → (if same_key k q then o else m q) ≡ put k o m q
unfolding put
put_lem k q o m vk vq =
    elim (Tlv-discrete k q)
      as (λ d. (if same_key k q then o else m q) ≡ elim d [ yes e ↦ o | no ne ↦ m q ]) [
        | yes e ↦ rw ((tlv_is_equal_iff k q vk vq).1 e) refl
        | no ne ↦ elim (Bool-cases (same_key k q)) [
          | inl same ↦ absurd (ne ((tlv_is_equal_iff k q vk vq).0 same))
          | inr other ↦ rw other refl
        ]
      ]

-- Maps that agree on valid keys.
abbrev Agree : TlvMap → TlvMap → Type 0
Agree m n = (q : Tlv) → IsValid q → m q ≡ n q

put-Agree : (k : Tlv) (o : Option Tlv) (m n : TlvMap) → Agree m n → Agree (put k o m) (put k o n)
unfolding put
put-Agree k o m n h q v =
    elim (Tlv-discrete k q)
      as (λ d. elim d [ yes e ↦ o | no ne ↦ m q ] ≡ elim d [ yes e ↦ o | no ne ↦ n q ]) [
        | yes e ↦ refl
        | no ne ↦ h q v
      ]

abbrev no_key : Tlv
no_key = record { t = tlv_bin; l = 0; v = [] }

module _ (lists : ListHead Kv) where
  unfoldable pub call_dict : DictCall → Dict lists → Dict lists
  call_dict (set_call alloc k v) d = (dict_set lists alloc d k v).1
  call_dict (del_call k) d = dict_del lists d k
  call_dict clear_call d = dict_clear lists d

  unfoldable pub run_dict : List DictCall → Dict lists → Dict lists
  unfolding call_dict
  run_dict [] d = d
  run_dict (c ∷ cs) d = run_dict cs (call_dict c d)

  -- The dictionary is well formed and stands for the map.
  pub record Refines (d : Dict lists) (m : TlvMap) : Type 0 where
    pub sound : IsDict lists d
    pub reads : (q : Tlv) → IsValid q → dict_get lists d q ≡ m q

  call-Refines :
      (c : DictCall) (d : Dict lists) (m : TlvMap)
      → HasValidKey c
      → Refines d m
      → Refines (call_dict c d) (call_map c m)
  unfolding call_dict call_map
  call-Refines (set_call true k v) d m vk r = record {
    sound = (dict_set-dict_get lists d k r.sound vk v k vk).2;
    reads = λ q vq.
        (dict_set-dict_get lists d k r.sound vk v q vq).3
        ∙ ap (λ o. if same_key k q then some v else o) (r.reads q vq)
        ∙ put_lem k q (some v) m vk vq;
  }
  call-Refines (set_call false k v) d m vk r =
      let e = (dict_set-dict_get lists d k r.sound vk v k vk).0 in
      subst (λ s. Refines s m) (sym (ap (λ p. p.1) e)) r
  call-Refines (del_call k) d m vk r = record {
    sound = (dict_del-dict_get lists d k r.sound vk k vk).0;
    reads = λ q vq.
        (dict_del-dict_get lists d k r.sound vk q vq).1
        ∙ ap (λ o. if same_key k q then none else o) (r.reads q vq)
        ∙ put_lem k q none m vk vq;
  }
  call-Refines clear_call d m vk r = record {
    sound = (dict_clear-dict_get lists d no_key r.sound).0;
    reads = λ q vq. (dict_clear-dict_get lists d q r.sound).2;
  }

  run-Refines :
      (cs : List DictCall) (d : Dict lists) (m : TlvMap)
      → All HasValidKey cs
      → Refines d m
      → Refines (run_dict cs d) (run_map cs m)
  unfolding run_dict run_map
  run-Refines [] d m v r = r
  run-Refines (c ∷ cs) d m (v, vs) r =
      run-Refines cs (call_dict c d) (call_map c m) vs (call-Refines c d m v r)

  -- After any sequence of calls on a new dictionary, with valid keys and whichever allocations fail,
  -- the dictionary is well formed and every valid key reads as in the abstract map that the same
  -- calls give.
  pub run_dict-run_map :
      (cs : List DictCall) (q : Tlv)
      → All HasValidKey cs
      → IsValid q
      → IsDict lists (run_dict cs (fresh lists))
        × (dict_get lists (run_dict cs (fresh lists)) q ≡ run_map cs (λ k. none) q)
  run_dict-run_map cs q v vq =
      let new : Refines (fresh lists) (λ k. none) = record {
        sound = (fresh-IsDict lists).0;
        reads = λ k vk. (fresh-IsDict lists).1 k;
      } in
      let r = run-Refines cs (fresh lists) (λ k. none) v new in (r.sound, r.reads q vq)
