-- ===== src/NetCrypto.antt =====
-- toxcore/net_crypto.c and net_crypto.h: the data model of the encrypted connections, and the calls
-- of the cryptography library as the parameter `Box`.
-- Keys, nonces and packets are their bytes. Handlers of crypto packets are not stored: the model
-- keeps which numbers have one.
pub mod Cipher
pub mod Request
pub mod Session
pub mod Nonce
pub mod RoundTrip
pub mod Table
pub mod Loop
pub mod Laws
use project_tox_core.Prelude.{
  ℕ, ◌≡◌, ◌≤◌, Bool, Option, none, some, List, replicate, take, length, get_elem?,
}
use project_tox_core.Lossless.{LosslessUdp}

abbrev pub public_key_bytes : ℕ
public_key_bytes = 32

abbrev pub nonce_bytes : ℕ
nonce_bytes = 24

-- `crypto_box_ZEROBYTES` and `crypto_box_BOXZEROBYTES`
abbrev pub zero_bytes : ℕ
zero_bytes = 32

abbrev pub box_zero_bytes : ℕ
box_zero_bytes = 16

abbrev pub mac_bytes : ℕ
mac_bytes = 16

abbrev pub encryption_padding : ℕ
encryption_padding = 16

abbrev pub packet_crypto : ℕ
packet_crypto = 32

abbrev pub max_incoming : ℕ
max_incoming = 64

abbrev pub conn_no_connection : ℕ
conn_no_connection = 0

abbrev pub conn_handshake_sent : ℕ
conn_handshake_sent = 1

abbrev pub conn_not_confirmed : ℕ
conn_not_confirmed = 2

abbrev pub conn_established : ℕ
conn_established = 3

abbrev pub conn_timed_out : ℕ
conn_timed_out = 4

-- `crypto_box_beforenm public secret`, `crypto_box_afternm message nonce key`,
-- `crypto_box_open_afternm cipher nonce key` with `none` for -1, and the pairs of a public and a
-- secret key that `crypto_box_keypair` returns call by call.
pub record Box : Type 0 where
  pub beforenm : List ℕ → List ℕ → List ℕ
  pub afternm : List ℕ → List ℕ → List ℕ → List ℕ
  pub open_afternm : List ℕ → List ℕ → List ℕ → Option (List ℕ)
  pub keypair : ℕ → List ℕ × List ℕ

-- What the library documents: a message that begins with 32 zero bytes becomes a text of the same
-- length that begins with 16 zero bytes, and opening it with the same nonce and key gives it back.
pub record IsBox (box : Box) : Type 0 where
  pub same_length : (m n k : List ℕ) → zero_bytes ≤ length m → length (box.afternm m n k) ≡ length m
  pub padded :
      (m n k : List ℕ)
      → zero_bytes ≤ length m
      → take zero_bytes m ≡ replicate zero_bytes 0
      → take box_zero_bytes (box.afternm m n k) ≡ replicate box_zero_bytes 0
  pub opens :
      (m n k : List ℕ)
      → zero_bytes ≤ length m
      → take zero_bytes m ≡ replicate zero_bytes 0
      → box.open_afternm (box.afternm m n k) n k ≡ some m

-- `Crypto_Connection`
pub record CryptoConnection : Type 0 where
  pub public_key : List ℕ
  pub recv_nonce : List ℕ
  pub sent_nonce : List ℕ
  pub sessionpublic_key : List ℕ
  pub sessionsecret_key : List ℕ
  pub peersessionpublic_key : List ℕ
  pub shared_key : List ℕ
  pub status : ℕ
  pub number : ℕ

-- `Net_Crypto`; `made` counts the key pairs that were made.
pub record NetCrypto : Type 0 where
  pub lossless_udp : LosslessUdp
  pub crypto_connections : List CryptoConnection
  pub self_public_key : List ℕ
  pub self_secret_key : List ℕ
  pub incoming_connections : List (Option ℕ)
  pub handled : ℕ → Bool
  pub made : ℕ

-- A new place: all zero, and no connection number.
abbrev pub zero_crypto_connection : CryptoConnection
zero_crypto_connection = record {
  public_key = replicate public_key_bytes 0;
  recv_nonce = replicate nonce_bytes 0;
  sent_nonce = replicate nonce_bytes 0;
  sessionpublic_key = replicate public_key_bytes 0;
  sessionsecret_key = replicate public_key_bytes 0;
  peersessionpublic_key = replicate public_key_bytes 0;
  shared_key = replicate public_key_bytes 0;
  status = 0;
  number = 65535;
}
