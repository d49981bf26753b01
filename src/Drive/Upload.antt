-- ===== src/Drive/Upload.antt =====
-- An upload: the request of share_drive/share_drive_client/client.py, ServerResource.handle_put, and
-- ClientResource.handle_internal, whose blocks the server's workers store.
pub mod Message
pub mod Request
