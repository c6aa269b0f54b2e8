-- ===== src/UsageSnapshot/Capture.antt =====
-- The counters of one capture (store.go): the step of `Capture`'s loop, and the loop.
use remnawave_node_go.Base.{
  ℕ, Bool, not, ◌&&◌, ◌||◌, Option, List, [], ◌∷◌, ◌++◌, Text, codes, text_eq, Result, ok, ◌>>=◌,
  ◌>>◌, check, if◌then◌else◌, is_negative, is_positive, sub_word, none, some,
}
use remnawave_node_go.Base.BigEndian.{put_uint64, read_uint64}
use remnawave_node_go.Bolt.{Bolt}
use remnawave_node_go.UsageSnapshot.Types.{Counter, counter_key}

-- encodeInt64, decodeInt64: the pattern's eight bytes.
abbrev pub encode_int64 : ℕ → Text
encode_int64 v = put_uint64 v

abbrev pub decode_int64 : Text → ℕ
decode_int64 b = read_uint64 b

abbrev pub text_of : Option Text → Text
text_of none = []
text_of (some t) = t

-- What a counter has grown by, given the value at the last capture.
unfoldable pub counter_delta : Bool → Counter → ℕ → ℕ
counter_delta reset c previous =
    let delta = sub_word c.value previous in
    if reset && not (text_eq c.kind (codes "forwarding")) || is_negative delta
    then c.value
    else delta

-- deltas = append(deltas, counter) where the delta is positive.
unfoldable pub add_delta : Counter → ℕ → List Counter → List Counter
add_delta c delta deltas =
    if is_positive delta then deltas ++ record c { value = delta } ∷ [] else deltas

module _ (B : Bolt) where
  -- bucket.Put
  unfoldable pub put_checked : B.Bucket → Text → Text → Result B.Bucket
  put_checked b k v = do check (B.refuses k v); ok (B.put b k v)

  -- string(bucket.Get(key))
  unfoldable pub get_text : B.Bucket → Text → Text
  get_text b k = text_of (B.get b k)

  unfoldable pub store_baseline : B.Bucket → List Counter → Result B.Bucket
  store_baseline b [] = ok b
  store_baseline b (c ∷ cs) = do
    b' ← put_checked b (counter_key c) (encode_int64 c.value)
    store_baseline b' cs

  -- The loop of `Capture` over the counters: the deltas so far, and the baseline.
  unfoldable pub capture_counters :
      Bool → List Counter → List Counter → B.Bucket → Result (List Counter × B.Bucket)
  capture_counters reset [] deltas b = ok (deltas, b)
  capture_counters reset (c ∷ cs) deltas b =
      let previous = decode_int64 (get_text b (counter_key c)) in
      do
        b' ← put_checked b (counter_key c) (encode_int64 c.value)
        capture_counters reset cs (add_delta c (counter_delta reset c previous) deltas) b'
