-- ===== src/Extension.antt =====
-- btls/src/x509/extension.rs: the builders of X.509 extensions.
pub mod Text
pub mod Native
pub mod BasicConstraints
pub mod KeyUsage
pub mod ExtendedKeyUsage
pub mod KeyIdentifier
pub mod SubjectAlternativeName
