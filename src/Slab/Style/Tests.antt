-- ===== src/Slab/Style/Tests.antt =====
-- A statement of two lines, with a marker and a comment.
use go_web_service.Prelude.{String}

abbrev statement : String
statement = "SELECT id FROM {{table}} -- all\nWHERE id = {{id:uuid}}"
