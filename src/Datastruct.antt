-- ===== src/Datastruct.antt =====
-- pkg/datastruct/datastruct.go: lists, sets and hashes. The methods of one object exclude one
-- another by its mutex, so each is one function of the object's content.
pub mod Lists
pub mod Sets
pub mod Hashes
