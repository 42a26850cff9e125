-- ===== src/Cache.antt =====
-- The file cache of utils/file.c: `holy_get_file`. The cache is the dictionary behind
-- `holy_dict_init`. What `holy_fetch_file` reads from the file system is an argument: the content
-- of a file, or none where it fails.
use holyhttp.Prelude.{
  ℕ, ◌<◌, ◌≤◌, ◌≡◌, refl, Option, none, some, if◌then◌else◌, ltb, ◌==◌, ◌&&◌, Bool, true, false,
  Bytes, length, take, take_all, IsText, ap, ◌∙◌, arith,
}
use mathlib.Core.Option
use holyhttp.ListHead.{ListHead}
use holyhttp.Tlv.{Tlv, tlv_bin, new_tlv, tlv_len}
use holyhttp.Tlv.Laws.{tlv_is_equal_iff}
use holyhttp.Dict.Chain.{Kv, same_key}
use holyhttp.Dict.{Dict, dict_get}
use holyhttp.Dict.Invariant.{IsDict}
use holyhttp.Dict.Access.{str_key, str_key-IsValid, new_str, all_ok, Stores, set_kv-Stores}
use holyhttp.Dict.Typed.{Allocs, set_type_type, set_str_bin, get_str_bin}
use holyhttp.Dict.Strings.{get_by_str-dict_get}

-- `MAX_CACHED_FILE_SIZE`: 1024 * 1024 / 10240.
abbrev pub max_cached_file_size : ℕ
max_cached_file_size = 102

module _ (lists : ListHead Kv) where
  -- `alloc` says whether the copy of a cached file can be allocated. The key of the look-up is
  -- allocated.
  unfoldable pub get_file :
      Bool → Allocs → (Bytes → Option Bytes) → Dict lists → Bytes → Option Bytes × Dict lists
  get_file alloc a fetch cache filename = elim (get_str_bin lists true cache (some filename)) [
    | some (v, l) ↦ (if alloc then some (take l v) else none, cache)
    | none ↦ elim (fetch filename) [
      | none ↦ (none, cache)
      | some content ↦ (
        some content,
        if ltb max_cached_file_size (length content)
            then cache
            else (set_str_bin lists a cache (some filename) (some content) (length content)).1,
      )
    ]
  ]

  bin_value : Bytes → Tlv
  bin_value s = record { t = tlv_bin; l = length s; v = s }

  new_bin :
      (s : Bytes)
      → 0 < length s
      → (alloc : Bool)
      → new_tlv alloc tlv_bin (length s) (some s) ≡ (if alloc then some (bin_value s) else none)
  unfolding new_tlv bin_value tlv_len
  new_bin s h true =
      let positive : (length s == 0) ≡ false = ground arith in
      rw (positive, take_all (length s) s (omega arith)) refl
  new_bin s h false = let positive : (length s == 0) ≡ false = ground arith in rw positive refl

  stored_bin :
      (d : Dict lists) (k s : Bytes) (a : Allocs)
      → IsDict lists d
      → IsText k
      → 0 < length s
      → Stores lists a d
          (str_key k)
          (bin_value s)
          (set_str_bin lists a d (some k) (some s) (length s))
  unfolding set_str_bin set_type_type
  stored_bin d k s a inv hk h =
      rw (new_str k hk a.key, new_bin s h a.value)
        (set_kv-Stores lists a d (str_key k) (bin_value s) inv (str_key-IsValid k hk))

  same_self : (k : Bytes) → IsText k → same_key (str_key k) (str_key k) ≡ true
  same_self k hk =
      (tlv_is_equal_iff (str_key k) (str_key k) (str_key-IsValid k hk) (str_key-IsValid k hk)).1
        refl

  read_back :
      (d : Dict lists) (k s : Bytes) (a : Allocs)
      → IsDict lists d
      → IsText k
      → 0 < length s
      → all_ok a ≡ true
      → get_str_bin lists true (set_str_bin lists a d (some k) (some s) (length s)).1 (some k)
        ≡ some (s, length s)
  unfolding get_str_bin bin_value
  read_back d k s a inv hk h ok =
      let hit : (if all_ok a && same_key (str_key k) (str_key k)
            then some (bin_value s)
            else dict_get lists d (str_key k))
          ≡ some (bin_value s) =
        rw (ok, same_self k hk) refl in
      ap (Option.map (λ v. (v.v, v.l))) (
        get_by_str-dict_get lists (set_str_bin lists a d (some k) (some s) (length s)).1 k hk
        ∙ (stored_bin d k s a inv hk h).reads (str_key k) (str_key-IsValid k hk)
        ∙ hit)

  first_read :
      (d : Dict lists) (fetch : Bytes → Option Bytes) (a : Allocs) (name content : Bytes)
      → get_str_bin lists true d (some name) ≡ none
      → fetch name ≡ some content
      → length content ≤ max_cached_file_size
      → get_file true a fetch d name
        ≡ (some content, (set_str_bin lists a d (some name) (some content) (length content)).1)
  unfolding get_file
  first_read d fetch a name content e f h =
      let small : ltb 102 (length content) ≡ false = ground arith in rw (get_file, e, f, small) refl

  cached_read :
      (d : Dict lists) (fetch : Bytes → Option Bytes) (a : Allocs) (name content : Bytes)
      → get_str_bin lists true d (some name) ≡ some (content, length content)
      → get_file true a fetch d name ≡ (some content, d)
  unfolding get_file
  cached_read d fetch a name content e =
      rw (get_file, e, take_all (length content) content (omega arith)) refl

  -- A file of 1 to 102 bytes that is not in the cache is read from the file system and, with memory
  -- for it, cached for good: a later read gives the same content, whatever the file has become.
  pub get_file-get_file :
      (cache : Dict lists) (fetch later : Bytes → Option Bytes) (a : Allocs) (name content : Bytes)
      → IsDict lists cache
      → IsText name
      → all_ok a ≡ true
      → get_str_bin lists true cache (some name) ≡ none
      → fetch name ≡ some content
      → 0 < length content
      → length content ≤ max_cached_file_size
      → ((get_file true a fetch cache name).0 ≡ some content)
        × ((get_file true a later (get_file true a fetch cache name).1 name).0 ≡ some content)
  get_file-get_file cache fetch later a name content inv hn ok e f h k =
      let after = (set_str_bin lists a cache (some name) (some content) (length content)).1 in
      rw (first_read cache fetch a name content e f k) (
        refl,
        ap (λ r. r.0)
            (cached_read after later a name content (read_back cache name content a inv hn h ok)),
      )
