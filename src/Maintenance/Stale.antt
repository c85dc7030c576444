-- ===== src/Maintenance/Stale.antt =====
-- Which speakers the maintenance task takes away.
use Prim.Native.Nat.{ℕ}
use beta.Base.{
  ◌&&◌, not, List, [], ◌∷◌, keep, ◌===◌, Bool, nat_equal, pair_equal, pair_eq_iff, ◌≡◌, ap, arith,
  inl, inr, Bool-cases,
}
use beta.Engine.{Engine, AudioKey}
use beta.Disconnect.{has_key}
use beta.Disconnect.Audio.{drop_key_lem}
use beta.EventLoop.Incoming.{for_each}
use beta.EventLoop.Hearing.{Buffers}
use beta.Maintenance.{is_stale, remove_stale, cleanup_tick}

has_key-keep :
    (key : AudioKey) (p : AudioKey → Bool) (ks : List AudioKey)
    → has_key key (keep p ks) ≡ (has_key key ks && p key)
has_key-keep key p [] = ground arith
has_key-keep key p (k ∷ ks) = elim (Bool-cases (k === key)) [
  | inl same ↦
      rw ((pair_eq_iff nat_equal nat_equal k key).0 same) (ground (arith, has_key-keep key p ks))
  | inr other ↦ ground (arith, other, has_key-keep key p ks)
]

module _ {Tx : Type 0} (buffers : Buffers) (now : ℕ) (key : AudioKey) where
  remove_stale_lem :
      (e : Engine Tx) (k : AudioKey)
      → let e' = remove_stale buffers now e k in
        (has_key key e'.client_buffers
          ≡ (has_key key e.client_buffers && not ((k === key) && is_stale buffers now key)))
        × (has_key key e'.audio_decoders ≡ (
            has_key key e.audio_decoders
            && not (has_key key e.client_buffers && ((k === key) && is_stale buffers now key))))
  unfolding remove_stale
  remove_stale_lem e k =
      let gone = drop_key_lem key e k in
      elim (Bool-cases (k === key)) [
        | inl same ↦
            let one = (pair_eq_iff nat_equal nat_equal k key).0 same in
            let here = ap (λ x. has_key x e.client_buffers) one in
            let old = ap (λ x. is_stale buffers now x) one in
            elim (Bool-cases (has_key k e.client_buffers && is_stale buffers now k)) [
              | inl goes ↦
                  rw (goes, same, remove_stale)
                    (ground (arith, gone.0, gone.1, same, here, old, goes))
              | inr stays ↦ rw (stays, same, remove_stale) (ground (arith, here, old, stays))
            ]
        | inr other ↦ elim (Bool-cases (has_key k e.client_buffers && is_stale buffers now k)) [
          | inl goes ↦ rw (goes, other, remove_stale) (ground (arith, gone.0, gone.1, other))
          | inr stays ↦ rw (stays, other, remove_stale) (ground arith)
        ]
      ]

  remove_all :
      (e : Engine Tx) (ks : List AudioKey)
      → let e' = for_each (remove_stale buffers now) e ks in
        (has_key key e'.client_buffers
          ≡ (has_key key e.client_buffers && not (has_key key ks && is_stale buffers now key)))
        × (has_key key e'.audio_decoders ≡ (
            has_key key e.audio_decoders
            && not (has_key key e.client_buffers && (has_key key ks && is_stale buffers now key))))
  remove_all e [] = ground arith
  remove_all e (k ∷ ks) =
      let rest = remove_all (remove_stale buffers now e k) ks in
      let first = remove_stale_lem e k in ground (arith, rest.0, rest.1, first.0, first.1)

  -- A cleanup takes away the buffer of a speaker exactly where nothing has come for it for more than
  -- ten seconds, and the mono decoder of a client exactly with its buffer: one without a buffer stays.
  pub cleanup_tick_lem :
      (e : Engine Tx)
      → let e' = cleanup_tick buffers now e in
        (has_key key e'.client_buffers
          ≡ (has_key key e.client_buffers && not (is_stale buffers now key)))
        × (has_key key e'.audio_decoders ≡ (
            has_key key e.audio_decoders
            && not (has_key key e.client_buffers && is_stale buffers now key)))
  unfolding cleanup_tick
  cleanup_tick_lem e =
      let all = remove_all e (keep (is_stale buffers now) e.client_buffers) in
      ground (arith, all.0, all.1, has_key-keep key (is_stale buffers now) e.client_buffers)
