-- ===== src/Osk/Outfile.antt =====
-- daisyway/src/internal/osk/outfile.rs: the output key in a file. The log lines are left out.
pub mod Written
pub mod Tests
use daisyway.Base.{String, Result, ok, err, panic, Action, ◌>>=◌, pure, lift, unwrap}
use daisyway.Crypto.Key.{Bytes, Key, key_length_b64}
use daisyway.Util.{Base64}
use daisyway.Osk.{SetOskReason, fresh, stale, OskHandler}

-- `File::create` with the file that it leaves open, `write_all` to it, and `println!`.
pub record Output (FilePath W : Type 0) : Type 0 where
  pub create : FilePath → Action W (Unit {0})
  pub write_all : FilePath → Bytes → Action W (Unit {0})
  pub println : FilePath → String → Action W (Unit {0})

abbrev pub why : SetOskReason → String
why fresh = "exchanged"
why stale = "stale"

-- `.expect(…)` on a step.
abbrev pub expecting : {W : Type 0} → String → Action W (Unit {0}) → Action W (Unit {0})
expecting s m w = let (r, w') = m w in (unwrap s r, w')

module _ {FilePath W : Type 0} (base64 : Base64) (output : Output FilePath W)
    (path : FilePath) where
  open base64 use {encode}
  open output use {create, write_all, println}

  unfoldable pub set_osk_impl : Key → SetOskReason → Action W (Unit {0})
  set_osk_impl key reason = do
    encoded ←
        lift (unwrap "called `Result::unwrap()` on an `Err` value" (encode key key_length_b64))
    _ ← expecting "Failed to create file" (create path)
    _ ← expecting "Failed to write PSK to file" (write_all path encoded)
    _ ← println path (why reason)
    pure tt

  -- `OutfileOskHandler` is an `OskHandler`.
  unfoldable pub handler : OskHandler W
  unfolding set_osk_impl
  handler = record { set_osk = set_osk_impl }
