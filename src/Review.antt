-- ===== src/Review.antt =====
-- src/bluelab/modules/review: what is kept of a call once it is graded.
pub mod Commentary
pub mod Evaluation
pub mod Grading
pub mod Overall
pub mod Scorecard
pub mod Attempts
mod Examples
