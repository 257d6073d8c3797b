-- ===== src/Publish/Verified.antt =====
-- What a firmware that `handle_publish` of firmware_publish.py accepts went through and leaves behind, and
-- what it opens for the converter.
use ota_server.Base.{ℕ, ◌≡◌, ◌∙◌, Text, codes, some, [], text_eq_refl, get, get-put}
use ota_server.Base.Result.{ok}
use ota_server.Db.{PublicationRow}
use ota_server.Publish.{
  Env, Share, Checked, Release, body, receive, value_of, body_size, replace_files,
}
use ota_server.Publish.Converter.{require_verified_firmware_publication}
use ota_server.Publish.Checks.{Genuine}

-- A publish that was accepted: the body, its checks, the stored file and the passing guard.
pub record Accepted (env : Env) (st' : Share) : Type 0 where
  pub size : ℕ
  pub bytes : Text
  pub checked : Checked
  pub announced : body_size env.content_length ≡ ok size
  pub received : receive env.read size size 0 [] ≡ body bytes
  pub genuine : Genuine env size bytes checked
  pub stored : get env.filename st'.firmware ≡ some bytes
  pub listed :
      (row : PublicationRow) × (require_verified_firmware_publication
          (value_of (codes "firmware_version") checked.release.values)
          checked.publisher.device_id
          st'.db
        ≡ ok row)

pub replaced_file :
    (env : Env) (bytes : Text) (release : Release) (st : Share)
    → get env.filename (replace_files env bytes release st).firmware ≡ some bytes
unfolding replace_files
replaced_file env bytes release st =
    get-put env.filename env.filename bytes st.firmware ∙ (rw (text_eq_refl env.filename))
