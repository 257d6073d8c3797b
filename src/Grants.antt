-- ===== src/Grants.antt =====
-- The download grants: ota_check_security.py and `consume_dispatch_token` of ota_check_runtime.py.
-- `now` is `int(time.time())`; the bytes of `os.urandom` are an argument.
pub mod Tokens
pub mod Downloads
pub mod OneTime
pub mod Issue
pub mod Wire
pub mod Confirm
