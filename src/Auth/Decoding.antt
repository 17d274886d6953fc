-- ===== src/Auth/Decoding.antt =====
-- What a decoded token grants.
use elunic_myturck.Base.Text.{Text}
