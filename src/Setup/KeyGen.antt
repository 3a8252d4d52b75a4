-- ===== src/Setup/KeyGen.antt =====
-- cmd/keygen/main.go: the key of the cipher, which the build writes to src/svc/ranky.txt before the
-- services are compiled. The random source is a parameter: it fills a buffer of the given size, or
-- fails. The state is the content of the file.
use d8x_broker_server.Base.{ℕ, Bool, List, [], ◌∷◌, Option, none, some, if◌then◌else◌}
use d8x_broker_server.Text.{Text}

abbrev pub key_size : ℕ
key_size = 32

module _ (random : ℕ → Option Text) (writable : Bool) where
  unfoldable pub gen : Option Text → Option Text
  gen file = elim (random key_size) [ none ↦ file | some key ↦ if writable then some key else file ]

  -- main: the program's name and the path are the two arguments.
  unfoldable pub main : List Text → Option Text → Option Text
  unfolding gen
  main (program ∷ path ∷ []) file = gen file
  main args file = file
