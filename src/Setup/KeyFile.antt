-- ===== src/Setup/KeyFile.antt =====
-- The private key's file: LoadFromFile and writeToFile of utils/file_things.go, Encrypt and Decrypt
-- of utils/signatures.go. The state is the content of the file, `none` if it cannot be read. AES-GCM
-- is a parameter, and so are the nonce that is drawn and whether the file can be written.
pub mod Reload
use d8x_broker_server.Base.{
  ℕ, ◌≡◌, ◌++◌, Bool, true, false, List, [], ◌∷◌, Option, none, some, ltb, if◌then◌else◌, length,
  take, drop, All,
}
use d8x_broker_server.Text.{Text, codes, has_prefix, trim_prefix}
use d8x_broker_server.Hex.{encode, decode}
use d8x_broker_server.Hex.Laws.{IsByte}

-- crypto/aes and crypto/cipher: whether a key is accepted, the size of a nonce, Seal and Open.
-- What was sealed is opened again with the same key and nonce, and consists of bytes if the plain
-- text does.
pub record Gcm : Type 0 where
  pub accepts : Text → Bool
  pub nonce_size : ℕ
  pub seal : Text → Text → Text → Text
  pub open_sealed : Text → Text → Text → Option Text
  pub open-seal :
      (key nonce plain : Text) → open_sealed key nonce (seal key nonce plain) ≡ some plain
  pub seal-IsByte : (key nonce plain : Text) → All IsByte plain → All IsByte (seal key nonce plain)

-- A text, or the empty text in place of an error that is dropped.
abbrev pub or_empty : Option Text → Text
or_empty none = []
or_empty (some s) = s

module _ (g : Gcm) where
  -- Encrypt; `drawn` is the nonce, `none` if none could be drawn.
  unfoldable pub encrypt : Option Text → Text → Text → Option Text
  encrypt none plain key = none
  encrypt (some nonce) plain key =
      if g.accepts key then some (encode (nonce ++ g.seal key nonce plain)) else none

  -- Decrypt behind the decoding.
  unfoldable pub decrypt_bytes : Option Text → Text → Option Text
  decrypt_bytes none key = none
  decrypt_bytes (some bytes) key =
      if ltb (length bytes) g.nonce_size
      then none
      else g.open_sealed key (take g.nonce_size bytes) (drop g.nonce_size bytes)

  unfoldable pub decrypt : Text → Text → Option Text
  unfolding decrypt_bytes
  decrypt text key = if g.accepts key then decrypt_bytes (decode text) key else none

  -- writeToFile: the error of Encrypt is dropped, and so is that of the write.
  unfoldable pub write_to_file : Bool → Option Text → Text → Text → Option Text → Option Text
  unfolding encrypt
  write_to_file writable drawn txt key file =
      if writable then some (or_empty (encrypt drawn txt key)) else file

  -- LoadFromFile: the key, and the file.
  unfoldable pub load_from_file : Bool → Option Text → Text → Option Text → Text × Option Text
  unfolding write_to_file decrypt
  load_from_file writable drawn key none = ([], none)
  load_from_file writable drawn key (some content) =
      let plain = trim_prefix content (codes "0x") in
      if has_prefix content (codes "0x")
      then (plain, write_to_file writable drawn plain key (some content))
      else (or_empty (decrypt content key), some content)
