-- ===== src/FileTransfer.antt =====
-- internal/filetransfer: manifests of whole files, and the node's store of chunks.
pub mod Manifest
pub mod Service
