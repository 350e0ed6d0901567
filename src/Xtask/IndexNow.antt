-- ===== src/Xtask/IndexNow.antt =====
-- tooling/xtask/src/discovery.rs: the notice to IndexNow that a release is deployed.
use Prim.Native.String
use rust_v.Prelude.{
  ℕ, String, Bool, false, ◌||◌, Option, none, some, List, ◌++◌, ok, err, ◌>>=◌, if◌then◌else◌,
}
use rust_v.Prelude.Text.{str_eq, trim}
use rust_v.Xtask.{key_unreadable, not_requested, bad_status, Checked}
use rust_v.Xtask.Encode.{bytes, percent_encode}
use rust_v.Xtask.Origin.{public_origin}
use rust_v.Xtask.Release.{check}

abbrev key_location : String → String → String
key_location site_url key = String.◌++◌ site_url (String.◌++◌ "/" (String.◌++◌ key ".txt"))

-- What `curl` printed, when it succeeded.
abbrev is_published : String → Option String → Bool
is_published key none = false
is_published key (some text) = str_eq (trim text) key

-- The bytes of the address that is asked for.
unfoldable pub request : String → String → List ℕ
request site_url key =
    bytes "https://api.indexnow.org/indexnow?url="
    ++ (percent_encode (bytes (String.◌++◌ site_url "/"))
        ++ (bytes "&key="
            ++ (bytes key
                ++ (bytes "&keyLocation=" ++ percent_encode (bytes (key_location site_url key))))))

accepted : Option String → Checked (Unit {0})
accepted none = err not_requested
accepted (some status) =
    if str_eq status "200" || str_eq status "202" then ok tt else err (bad_status status)

module _ (short_hash : String → String) (env : String → Option String)
    (fetch : String → Option String) (submit : List ℕ → Option String) where
  unfoldable pub notify_indexnow : Checked (Unit {0})
  unfolding request accepted public_origin
  notify_indexnow = do
    site_url ← public_origin env "PUBLIC_SITE_URL"
    _ ←
        check
          (is_published (short_hash site_url) (fetch (key_location site_url (short_hash site_url))))
          key_unreadable
    accepted (submit (request site_url (short_hash site_url)))
