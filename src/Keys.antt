-- ===== src/Keys.antt =====
-- app_v1/server/app/service/access_key_service.py, auth.py and routers/web/crud_access_keys.py: the keys that
-- launchers and clients sign in with.
pub mod Rows
pub mod Service
pub mod Creating
pub mod Created
pub mod Agreement
pub mod Revoking
pub mod Examples
