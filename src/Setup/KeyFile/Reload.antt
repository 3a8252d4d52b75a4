-- ===== src/Setup/KeyFile/Reload.antt =====
-- LoadFromFile of utils/file_things.go on a key in plain text, and once more on what that leaves.
use d8x_broker_server.Base.{
  ◌≡◌, refl, ◌++◌, Bool, true, false, [], ◌∷◌, Option, none, some, arith, length, All, All-append,
  length-append, take-append, drop-append,
}
use d8x_broker_server.Text.{Text, codes, has_prefix, trim_prefix}
use d8x_broker_server.Text.Laws.{has_prefix-Lacks}
use d8x_broker_server.Hex.{encode}
use d8x_broker_server.Hex.Laws.{IsByte, decode-encode, encode-Lacks}
use d8x_broker_server.Setup.KeyFile.{
  Gcm, encrypt, decrypt_bytes, decrypt, write_to_file, load_from_file,
}

plain_key : (s : Text) → trim_prefix (b'0' ∷ b'x' ∷ s) (codes "0x") ≡ s
unfolding trim_prefix
plain_key s = refl

module _ (g : Gcm) (nonce key : Text) where
  -- What the file holds once the key `s` is encrypted.
  abbrev pub sealed : Text → Text
  sealed s = encode (nonce ++ g.seal key nonce s)

  decrypt_bytes-seal :
      (s : Text)
      → length nonce ≡ g.nonce_size
      → decrypt_bytes g (some (nonce ++ g.seal key nonce s)) key ≡ some s
  unfolding decrypt_bytes
  decrypt_bytes-seal s size =
      let c = g.seal key nonce s in
      rw
        (
          ← size,
          take-append nonce c,
          drop-append nonce c,
          length-append nonce c,
          g.open-seal key nonce s,
        )
        (ground arith)

  decrypt-sealed :
      (s : Text)
      → All IsByte s
      → g.accepts key ≡ true
      → All IsByte nonce
      → length nonce ≡ g.nonce_size
      → decrypt g (sealed s) key ≡ some s
  unfolding decrypt
  decrypt-sealed s plain accepted bytes size =
      let c = nonce ++ g.seal key nonce s in
      let known =
        decode-encode c
          (All-append IsByte nonce (g.seal key nonce s) bytes (g.seal-IsByte key nonce s plain)) in
      rw (accepted, known) (decrypt_bytes-seal s size)

  sealed-plain :
      (s : Text) → All IsByte s → All IsByte nonce → has_prefix (sealed s) (codes "0x") ≡ false
  sealed-plain s plain bytes = has_prefix-Lacks (sealed s) (
      encode-Lacks (nonce ++ g.seal key nonce s)
        (All-append IsByte nonce (g.seal key nonce s) bytes (g.seal-IsByte key nonce s plain)))

  -- With a cipher key that is accepted, a nonce of the cipher's size, and a file that can be
  -- written: LoadFromFile on a file with `0x` and a key of bytes returns the key and leaves it
  -- sealed in the file, and each later LoadFromFile, whatever nonce is drawn, returns the same
  -- key and leaves the file as it is.
  pub load_from_file-reload :
      (s : Text)
      → All IsByte s
      → g.accepts key ≡ true
      → All IsByte nonce
      → length nonce ≡ g.nonce_size
      → (load_from_file g true (some nonce) key (some (b'0' ∷ b'x' ∷ s)) ≡ (s, some (sealed s)))
        × ((writable : Bool) (drawn : Option Text)
            → load_from_file g writable drawn key (some (sealed s)) ≡ (s, some (sealed s)))
  unfolding load_from_file write_to_file encrypt has_prefix
  load_from_file-reload s plain accepted bytes size = (
    rw (plain_key s, accepted) refl,
    λ writable drawn.
        rw (sealed-plain s plain bytes, decrypt-sealed s plain accepted bytes size) refl,
  )

encrypt-refused :
    (g : Gcm) (drawn : Option Text) (key s : Text)
    → g.accepts key ≡ false
    → encrypt g drawn s key ≡ none
unfolding encrypt
encrypt-refused g none key s refused = refl
encrypt-refused g (some nonce) key s refused = rw refused refl

-- With a cipher key that is refused and a file that can be written, LoadFromFile on a file with
-- `0x` and a key returns the key but leaves an empty file, from which the next LoadFromFile gets
-- an empty key.
pub load_from_file-lost :
    (g : Gcm) (drawn : Option Text) (key s : Text)
    → g.accepts key ≡ false
    → (load_from_file g true drawn key (some (b'0' ∷ b'x' ∷ s)) ≡ (s, some []))
      × (load_from_file g true drawn key (some []) ≡ ([], some []))
unfolding load_from_file write_to_file has_prefix decrypt
load_from_file-lost g drawn key s refused =
    (rw (plain_key s, encrypt-refused g drawn key s refused) refl, rw refused refl)
