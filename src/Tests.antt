-- ===== src/Tests.antt =====
-- The theorems at concrete inputs.
pub mod Json
pub mod PacketTests
pub mod OptionTests
pub mod TransactionTests
pub mod ConfigTests
pub mod DownloadTests
pub mod UploadTests
pub mod PathTests
pub mod FetchTests
pub mod DriveTests
pub mod AssemblerTests
pub mod SplitterTests
pub mod WorkerTests
pub mod ServerTests
pub mod SessionTests
pub mod UtilitiesTests
