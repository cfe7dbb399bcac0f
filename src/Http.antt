-- ===== src/Http.antt =====
-- The HTTP front end: src/http_server.rs, src/attributes_http.rs, src/management_http.rs,
-- src/security_http.rs and src/batch_http.rs, between the bytes of a request and the store.
pub mod Reply
pub mod Web
pub mod Wire
pub mod Names
pub mod Maps
pub mod Settings
pub mod Identity
pub mod Access
pub mod Handler
pub mod Answer
pub mod Configuration
pub mod Messages
pub mod Requests
pub mod Xml
pub mod Actions
pub mod Lists
pub mod Management
pub mod Entries
pub mod BatchActions
pub mod Dispatch
pub mod Poll
pub mod Body
pub mod Response
pub mod Serve
pub mod Config
pub mod Laws
