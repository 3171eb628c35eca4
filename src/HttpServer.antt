-- ===== src/HttpServer.antt =====
-- The rendering of mail as one line of text (internal/httpserver/html_text.go).
pub mod Writer
pub mod Words
pub mod SingleLine
pub mod Clean
pub mod Elements
pub mod Attributes
pub mod HtmlText
pub mod Rendered
pub mod Skipping
mod Tests
