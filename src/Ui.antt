-- ===== src/Ui.antt =====
-- ui/src: the actor behind the screens of the browser, and the board that they show. The screens are
-- left out.
pub mod Conn
pub mod Board
