-- ===== src/Db/Sessions/Reopened.antt =====
-- `mark_live` of db/sessions.py on a session that has ended.
use lad_translate.Common.Text.{Text}
